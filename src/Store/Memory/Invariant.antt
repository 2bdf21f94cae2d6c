-- ===== src/Store/Memory/Invariant.antt =====
-- What holds of the store after any history of calls.
pub mod Coherence
pub mod Numbers
use mathlib.Core.Option.{some-injective}
use queuefy.Prelude.{
  subst, ℕ, ◌<◌, ◌≤◌, suc, ◌≡◌, refl, sym, ap, ◌∙◌, inl, inr, ◌⊎◌, Bool, true, false, none, some,
  List, [], Option, ◌∷◌, ◌++◌, arith, ◌==◌, if◌then◌else◌, Bool-cases, Option-cases, ==_iff, All,
  All-map, map,
}
use queuefy.Prelude.Int.{ℤ, pos, negsuc, ◌≤ℤ◌, ◌+ℤ◌, +ℤ_parts}
use queuefy.Prelude.Text.{Text}
use queuefy.Prelude.Assoc.{
  lookup, lookup_past, append-Distinct, append-All, put-Distinct, put-All, put_each,
  put_each-Distinct, remove_each-Distinct, remove_each, remove_each-All, Distinct,
}
use queuefy.Value.{Value}
use queuefy.Run.{
  Run, RunStatus, Instant, pending, running, done, failed, canceled, same_status, is_settled,
  exhausted,
}
use queuefy.Store.Memory.Rows.{Entry, MemoryStore, get, add, taken}
use queuefy.Store.Memory.Rows.Exact.{written, Below}
use queuefy.Store.Memory.Claiming.{started}
use queuefy.Store.Memory.Holding.{holds, extended, completed, gave_up, requeued}
use queuefy.Store.Memory.Sweeping.{expired, taken_back, called_off}
use queuefy.Store.Memory.Life.{
  Call, adds, step, Act, extend, close, give_up, put_back, give_back, act, Change, claimed, acted,
  lapsed, withdrawn,
}
use queuefy.Store.Memory.Rows.Exact.{taken-get}
use queuefy.Store.Memory.Life.{Row, same, changes, appears, drops}
use queuefy.Store.Memory.Life.Steps.{step-Row}
use Coherence.{IsCoherent, Change-keeps, Change-IsCoherent}
use Numbers.{Numbered, step-Numbered}

pub record IsWellFormed (s : MemoryStore) : Type 0 where
  pub numbered : Numbered s
  -- A run carries the number that it stands under, and its fields agree with its status.
  pub named : (i : ℕ) (r : Run) → get s i ≡ some r → r.id ≡ some i
  pub coherent : (i : ℕ) (r : Run) → get s i ≡ some r → IsCoherent r
  -- No two runs stand under one key.
  pub single :
      (i j : ℕ) (a b : Run) (k : Text)
      → get s i ≡ some a
      → get s j ≡ some b
      → a.key ≡ some k
      → b.key ≡ some k
      → i ≡ j

-- A run is added in a state that agrees with itself; `Queuefy.build` makes no other.
abbrev pub Admissible : Call → Type 0
Admissible (adds run) = IsCoherent run
Admissible _ = Unit

-- Where a run of the store comes from: it was there, under the same key, or this call wrote it.
abbrev Origin : MemoryStore → Call → ℕ → Run → Type 0
Origin s c i r =
    ((a : Run) × (get s i ≡ some a)
      × (r.key ≡ a.key)
      × (r.id ≡ a.id)
      × (IsCoherent a → IsCoherent r))
    ⊎ ((run : Run) × (c ≡ adds run)
        × (i ≡ s.sequence)
        × (taken s run.key ≡ false)
        × (r ≡ written s run))

Row-Origin :
    (s : MemoryStore) (c : Call) (i : ℕ) {after : Option Run} (r : Run)
    → Row s c i after
    → after ≡ some r
    → Origin s c i r
Row-Origin s c i r (same e) h = inl (r, sym e ∙ h, refl, refl, λ k. k)
Row-Origin s c i r (changes a b here e w _) h =
    let this : b ≡ r = some-injective b r (sym e ∙ h) in
    let (ids, keys) = Change-keeps a b w in
    inl (a, here, rw (← this) keys, rw (← this) ids, λ k. rw (← this) (Change-IsCoherent a b w k))
Row-Origin s c i r (appears run call at_end absent free e) h =
    inr (run, call, at_end, free, sym (some-injective (written s run) r (sym e ∙ h)))
Row-Origin s c i r (drops a here over e) h = absurd (cc)

written-IsCoherent : (s : MemoryStore) (run : Run) → IsCoherent run → IsCoherent (written s run)
written-IsCoherent s run h = ground arith

-- A store that a call of the contract leaves.
module _ (s s' : MemoryStore) (c : Call) (v : IsWellFormed s) (ok : Admissible c)
    (rows : (i : ℕ) → Row s c i (get s' i)) where
  origin : (i : ℕ) (r : Run) → get s' i ≡ some r → Origin s c i r
  origin i r = Row-Origin s c i r (rows i)

  named : (i : ℕ) (r : Run) → get s' i ≡ some r → r.id ≡ some i
  named i r h = elim (origin i r h) [
    | inl (a, here, _, ids, _) ↦ ids ∙ v.named i a here
    | inr (run, _, at_end, _, this) ↦ rw (this, at_end) refl
  ]

  coherent : (i : ℕ) (r : Run) → get s' i ≡ some r → IsCoherent r
  coherent i r h = elim (origin i r h) [
    | inl (a, here, _, _, keeps) ↦ keeps (v.coherent i a here)
    | inr (run, call, _, _, this) ↦ rw this (written-IsCoherent s run (subst Admissible call ok))
  ]

  -- A run that this call writes has a key that no run of the store has.
  key_is_new :
      (run b : Run) (j : ℕ) (k : Text)
      → taken s run.key ≡ false
      → get s j ≡ some b
      → b.key ≡ some k
      → run.key ≡ some k
      → ⊥
  key_is_new run b j k free here kb kr =
      let full : taken s run.key ≡ true = rw kr (taken-get s j b k here kb) in cc

  single :
      (i j : ℕ) (a b : Run) (k : Text)
      → get s' i ≡ some a
      → get s' j ≡ some b
      → a.key ≡ some k
      → b.key ≡ some k
      → i ≡ j
  single i j a b k ha hb ka kb = elim (origin i a ha) [
    | inl (a', old_a, keys_a, _, _) ↦ elim (origin j b hb) [
      | inl (b', old_b, keys_b, _, _) ↦
          v.single i j a' b' k old_a old_b (sym keys_a ∙ ka) (sym keys_b ∙ kb)
      | inr (run, _, _, free, this) ↦
          absurd (key_is_new run a' i k free old_a (sym keys_a ∙ ka) (rw this at kb))
    ]
    | inr (run, _, at_end, free, this) ↦ elim (origin j b hb) [
      | inl (b', old_b, keys_b, _, _) ↦
          absurd (key_is_new run b' j k free old_b (sym keys_b ∙ kb) (rw this at ka))
      | inr (_, _, at_end', _, _) ↦ at_end ∙ sym at_end'
    ]
  ]

  -- What the contract lets a call do to each number keeps the whole store well formed.
  pub Row-IsWellFormed : Numbered s' → IsWellFormed s'
  Row-IsWellFormed n = record { numbered = n; named = named; coherent = coherent; single = single }

-- Every admissible call keeps a well-formed store well formed: numbers are distinct and below the
-- counter, a run carries its number, its fields agree with its status, and keys are single.
pub step-IsWellFormed :
    (s : MemoryStore) (c : Call) → IsWellFormed s → Admissible c → IsWellFormed (step s c)
step-IsWellFormed s c v ok =
    Row-IsWellFormed s (step s c) c v ok (λ i. step-Row s c i v.numbered.distinct v.numbered.below)
      (step-Numbered s c v.numbered)
