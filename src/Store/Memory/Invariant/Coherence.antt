-- ===== src/Store/Memory/Invariant/Coherence.antt =====
-- Each change of a run keeps its fields in agreement with its status.
use queuefy.Prelude.{ℕ, ◌≡◌, refl, Bool, true, false, none, some, Option, arith}
use queuefy.Prelude.Int.{ℤ, pos, ◌≤ℤ◌, ◌+ℤ◌}
use queuefy.Prelude.Text.{Text}
use queuefy.Run.{Run, RunStatus, Instant, pending, running, same_status}
use queuefy.Store.Memory.Claiming.{started}
use queuefy.Store.Memory.Holding.{holds}
use queuefy.Store.Memory.Sweeping.{expired, taken_back, called_off}
use queuefy.Store.Memory.Life.{
  Act, extend, close, give_up, put_back, give_back, act, Change, claimed, acted, lapsed, withdrawn,
}

abbrev pub present {ℓ} : {A : Type ℓ} → Option A → Bool
present none = false
present (some a) = true

-- The fields of a run agree with its status: a worker and a lease exactly while it runs, a start
-- since it was claimed, an end once it is over, and at least one attempt while it runs.
abbrev pub CoherentAt : RunStatus → Run → Type 0
CoherentAt pending r =
    (r.worker ≡ none)
    × (r.lease_until ≡ none)
    × (r.started_at ≡ none)
    × (r.finished_at ≡ none)
    × (pos 0 ≤ℤ r.attempts)
CoherentAt running r =
    (present r.worker ≡ true)
    × (present r.lease_until ≡ true)
    × (present r.started_at ≡ true)
    × (r.finished_at ≡ none)
    × (pos 1 ≤ℤ r.attempts)
CoherentAt _ r =
    (r.worker ≡ none)
    × (r.lease_until ≡ none)
    × (present r.finished_at ≡ true)
    × (pos 0 ≤ℤ r.attempts)

abbrev pub IsCoherent : Run → Type 0
IsCoherent r = CoherentAt r.status r

claimed-IsCoherent :
    (worker : Text) (lease : ℕ) (moment : Instant) (a : Run)
    → same_status a.status pending ≡ true
    → IsCoherent a
    → IsCoherent (started worker lease moment a)
unfolding started same_status ◌+ℤ◌
claimed-IsCoherent worker lease moment a w h = ground arith

acted-IsCoherent :
    (x : Act) (worker : Text) (attempt : ℤ) (a : Run)
    → holds a worker attempt ≡ true
    → IsCoherent a
    → IsCoherent (act x a)
unfolding act holds same_status ◌+ℤ◌
acted-IsCoherent (extend lease moment) worker attempt a w h = ground arith
acted-IsCoherent (close moment result) worker attempt a w h = ground arith
acted-IsCoherent (give_up moment error kind) worker attempt a w h = ground arith
acted-IsCoherent (put_back due_at error kind) worker attempt a w h = ground arith
acted-IsCoherent (give_back due_at error kind) worker attempt a w h = ground arith

lapsed-IsCoherent :
    (moment : Instant) (a : Run)
    → expired moment a ≡ true
    → IsCoherent a
    → IsCoherent (taken_back moment a)
unfolding taken_back expired same_status
lapsed-IsCoherent moment a w h = ground arith

withdrawn-IsCoherent :
    (moment : Instant) (a : Run)
    → same_status a.status pending ≡ true
    → IsCoherent a
    → IsCoherent (called_off moment a)
unfolding same_status
withdrawn-IsCoherent moment a w h = ground arith

act-keeps : (x : Act) (a : Run) → ((act x a).id ≡ a.id) × ((act x a).key ≡ a.key)
unfolding act
act-keeps (extend lease moment) a = (refl, refl)
act-keeps _ a = (refl, refl)

-- What no change of a run touches.
pub Change-keeps : (a b : Run) → Change a b → (b.id ≡ a.id) × (b.key ≡ a.key)
unfolding started taken_back
Change-keeps a b (claimed worker lease moment w e) = rw e (refl, refl)
Change-keeps a b (acted worker attempt x w e) = rw e (act-keeps x a)
Change-keeps a b (lapsed moment w e) = rw e (ground arith)
Change-keeps a b (withdrawn moment w e) = rw e (refl, refl)

pub Change-IsCoherent : (a b : Run) → Change a b → IsCoherent a → IsCoherent b
Change-IsCoherent a b (claimed worker lease moment w e) h =
    rw e (claimed-IsCoherent worker lease moment a w h)
Change-IsCoherent a b (acted worker attempt x w e) h =
    rw e (acted-IsCoherent x worker attempt a w h)
Change-IsCoherent a b (lapsed moment w e) h = rw e (lapsed-IsCoherent moment a w h)
Change-IsCoherent a b (withdrawn moment w e) h = rw e (withdrawn-IsCoherent moment a w h)
