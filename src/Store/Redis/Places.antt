-- ===== src/Store/Redis/Places.antt =====
-- src/queuefy/store/redis.py: `stamp`, `waiting_in`, and what an empty text of a hash stands for.
-- A hash is kept here as the run that `to_run` reads of it, in which an empty text is nothing.
use queuefy.Prelude.{◌≤◌, ◌≡◌, refl, Bool, true, false, ◌&&◌, Option, none, some, [], ◌∷◌, arith}
use queuefy.Prelude.Int.{ℤ, pos, ◌-ℤ◌, ◌≤ℤ◌, ◌==ℤ◌, ==ℤ_iff, int_laws}
use queuefy.Prelude.Text.{Text, ◌==◌ as text_eq, eq_refl, eq_of_test}
use queuefy.Run.{Run, Instant, pending, running, done, failed, canceled}
use queuefy.Clock.{epoch}

-- Whole microseconds since the epoch.
unfoldable pub stamp : Instant → ℤ
unfolding ◌-ℤ◌
stamp moment = pos moment -ℤ pos epoch

pub stamp_mono : (a b : Instant) → a ≤ b → stamp a ≤ℤ stamp b
unfolding stamp
stamp_mono a b h = omega int_laws

-- `value or None` of a field, and `value or ""` of an attribute.
abbrev pub field : Text → Option Text
field [] = none
field (c ∷ t) = some (c ∷ t)

abbrev pub read_text : Option Text → Option Text
read_text none = none
read_text (some t) = field t

abbrev pub text_of : Option Text → Text
text_of none = []
text_of (some t) = t

-- A sorted set of the store.
pub data Place : Type 0 where
  lane : (queue : Text) (priority : ℤ) → Place
  leased settled : Place

abbrev pub same_place : Place → Place → Bool
same_place (lane q p) (lane q' p') = text_eq q q' && p ==ℤ p'
same_place leased leased = true
same_place settled settled = true
same_place _ _ = false

pub same_place_refl : (p : Place) → same_place p p ≡ true
same_place_refl (lane q p) = rw (eq_refl q, (==ℤ_iff p p).1 refl) refl
same_place_refl leased = refl
same_place_refl settled = refl

pub same_place_lem : (a b : Place) → same_place a b ≡ true → a ≡ b
same_place_lem (lane q p) (lane q' p') h =
    let here : text_eq q q' ≡ true = ground arith in
    let there : (p ==ℤ p') ≡ true = ground arith in
    rw (eq_of_test q q' here, (==ℤ_iff p p').0 there) refl
same_place_lem leased leased h = refl
same_place_lem settled settled h = refl
same_place_lem (lane q p) leased h = cc
same_place_lem (lane q p) settled h = cc
same_place_lem leased (lane q p) h = cc
same_place_lem leased settled h = cc
same_place_lem settled (lane q p) h = cc
same_place_lem settled leased h = cc

-- The set that a run belongs in by its status, and the instant that set orders it by.
abbrev pub waiting_by : Run → Place × Option Instant
waiting_by run = elim run.status [
  | pending ↦ (lane run.queue run.priority, some run.due_at)
  | running ↦ (leased, run.lease_until)
  | done ↦ (settled, run.finished_at)
  | failed ↦ (settled, run.finished_at)
  | canceled ↦ (settled, run.finished_at)
]

unfoldable pub waiting_in : Run → Place × Option Instant
waiting_in run = waiting_by run

-- A run as `to_run` reads what `to_hash` writes of it, where its values are read back as they are
-- printed: an empty text is nothing.
abbrev pub as_read : Run → Run
as_read run = record run {
  key = read_text run.key;
  worker = read_text run.worker;
  error = read_text run.error;
  error_type = read_text run.error_type;
}
