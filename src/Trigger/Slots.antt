-- ===== src/Trigger/Slots.antt =====
-- The slots of an interval: counted from the epoch, and the first one after a moment is named.
use queuefy.Prelude.{
  ℕ, zero, ◌+◌, ◌-◌, ◌*◌, ◌/◌, ◌≤◌, ◌<◌, ◌≡◌, refl, arith, inl, inr, ◌⊎◌, leb, Bool-cases, suc,
  if◌then◌else◌, ltb,
}
use queuefy.Prelude.Int.{pos, negsuc, ◌+ℤ◌, ◌-ℤ◌, ◌*ℤ◌, sub_ℕ}
use queuefy.Errors.{ok, ok-injective}
use queuefy.Run.{Instant}
use queuefy.Clock.{epoch, widest_slot, in_range}
use native.Mathlib.Nat.{div-add-mod, mod-lt, mul-le-mul_left}
use queuefy.Trigger.{floor_div, interval_next_after}

-- A whole number of spans after an origin, or before it.
abbrev pub IsSlot : ℕ → ℕ → ℕ → Type 0
IsSlot origin span t = (k : ℕ) × ((t ≡ origin + span * k) ⊎ (t + span * k ≡ origin))

*ℤ_pos : (a b : ℕ) → pos a *ℤ pos b ≡ pos (a * b)
unfolding ◌*ℤ◌
*ℤ_pos a b = ground arith

*ℤ_negsuc : (a b : ℕ) → pos a *ℤ negsuc b ≡ sub_ℕ 0 (a * suc b)
unfolding ◌*ℤ◌
*ℤ_negsuc a b = ground arith

-- The slot that a signed count of spans comes to, on either side of the origin.
unfoldable pub slot : ℕ → ℕ → ℕ → ℕ
slot origin span moment =
    if leb origin moment
    then origin + span * ((moment - origin) / span + 1)
    else origin - span * ((origin - moment - 1) / span)

sub_past : (origin moment : ℕ) → origin ≤ moment → pos moment -ℤ pos origin ≡ pos (moment - origin)
unfolding ◌-ℤ◌
sub_past origin moment h = ground arith

sub_before :
    (origin moment : ℕ) → moment < origin → pos moment -ℤ pos origin ≡ negsuc (origin - moment - 1)
unfolding ◌-ℤ◌
sub_before origin moment h = ground arith

after_origin :
    (origin span q : ℕ) → pos origin +ℤ pos span *ℤ (pos q +ℤ pos 1) ≡ pos (origin + span * (q + 1))
unfolding ◌+ℤ◌ ◌*ℤ◌
after_origin origin span q = ground arith

before_origin :
    (origin span q : ℕ)
    → span * q < origin
    → pos origin +ℤ pos span *ℤ (negsuc q +ℤ pos 1) ≡ pos (origin - span * q)
unfolding ◌+ℤ◌ ◌*ℤ◌
before_origin origin span q h = ground arith

slot_lem :
    (origin span moment : ℕ)
    → pos origin +ℤ pos span *ℤ (floor_div (pos moment -ℤ pos origin) span +ℤ pos 1)
      ≡ pos (slot origin span moment)
unfolding slot floor_div
slot_lem origin span moment = elim (Bool-cases (leb origin moment)) [
  | inl past ↦
      let h : origin ≤ moment = ground arith in
      rw (sub_past origin moment h, past) (after_origin origin span ((moment - origin) / span))
  | inr before ↦
      let h : moment < origin = ground arith in
      rw (sub_before origin moment h, before)
        (before_origin origin span ((origin - moment - 1) / span)
          (omega (arith, div-add-mod (origin - moment - 1) span)))
]

-- A slot is after its moment and at most one span away.
slot_near :
    (origin span moment : ℕ)
    → 0 < span
    → (moment < slot origin span moment) × (slot origin span moment ≤ moment + span)
unfolding slot
slot_near origin span moment h = ground (
  arith,
  div-add-mod (moment - origin) span,
  mod-lt (moment - origin) h,
  div-add-mod (origin - moment - 1) span,
  mod-lt (origin - moment - 1) h,
)

slot-IsSlot : (origin span moment : ℕ) → IsSlot origin span (slot origin span moment)
unfolding slot
slot-IsSlot origin span moment = elim (Bool-cases (leb origin moment)) [
  | inl past ↦ ((moment - origin) / span + 1, inl (rw past refl))
  | inr before ↦ (
    (origin - moment - 1) / span,
    inr (rw before (omega (arith, div-add-mod (origin - moment - 1) span))),
  )
]

-- Two slots less than a span apart are one.
apart : (span j k : ℕ) → span * j < span * k → span * j + span ≤ span * k
apart span j k h = elim (Bool-cases (ltb j k)) [
  | inl less ↦ let l : suc j ≤ k = ground arith in omega (arith, mul-le-mul_left span l)
  | inr more ↦ let l : k ≤ j = ground arith in absurd (omega (arith, mul-le-mul_left span l))
]

slots_apart :
    (origin span s t : ℕ) → IsSlot origin span s → IsSlot origin span t → s < t → s + span ≤ t
slots_apart origin span s t (j, inl a) (k, inl b) h = omega (arith, apart span j k (omega arith))
slots_apart origin span s t (j, inr a) (k, inr b) h = omega (arith, apart span k j (omega arith))
slots_apart origin span s t (j, inl a) (k, inr b) h = absurd (omega arith)
slots_apart origin span s t (zero, inr a) (zero, inl b) h = absurd (omega arith)
slots_apart origin span s t (suc j, inr a) (k, inl b) h = omega arith
slots_apart origin span s t (zero, inr a) (suc k, inl b) h = omega arith

in_range-ok : (n r : ℕ) → in_range (pos n) ≡ ok r → (n ≡ r)
unfolding in_range
in_range-ok n r h = ground (arith, ok-injective n r)

-- An interval that advances names the first slot after the moment: its answer lies past the moment,
-- at a whole number of spans from the epoch, and every slot is either not past the moment or not
-- before the answer, so two moments between the same two slots are answered alike.
pub interval_next_after-IsSlot :
    (span : ℕ) (moment r t : Instant)
    → 0 < span
    → interval_next_after span moment ≡ ok r
    → IsSlot epoch span t
    → (moment < r) × IsSlot epoch span r × ((t ≤ moment) ⊎ (r ≤ t))
unfolding interval_next_after
interval_next_after-IsSlot span moment r t advances e on =
    let named : slot epoch span moment ≡ r =
      in_range-ok (slot epoch span moment) r (rw (slot_lem epoch span moment) at e) in
    let (past, near) = slot_near epoch span moment advances in
    let r_on : IsSlot epoch span r = rw (← named) (slot-IsSlot epoch span moment) in
    (
      omega arith,
      r_on,
      elim (Bool-cases (ltb t r)) [
        | inr late ↦ inr (ground arith)
        | inl early ↦
            let l : t < r = ground arith in
            inl (omega (arith, slots_apart epoch span t r on r_on l))
      ],
    )

-- An interval that advances names a slot at every moment a span or more before the last instant that
-- a datetime holds, and nothing is raised.
pub interval_next_after-finds :
    (span : ℕ) (moment : Instant)
    → 0 < span
    → moment + span ≤ widest_slot
    → (r : Instant) × (interval_next_after span moment ≡ ok r) × (r ≤ moment + span)
unfolding interval_next_after in_range
interval_next_after-finds span moment advances room =
    let (past, near) = slot_near epoch span moment advances in
    (
      slot epoch span moment,
      rw (slot_lem epoch span moment)
          (let l : slot epoch span moment ≤ widest_slot = omega arith in ground arith),
      near,
    )
