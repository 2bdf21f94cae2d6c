-- ===== src/Store/Memory/Claiming/Answered.antt =====
-- What `claim` of src/queuefy/store/memory.py answers with, run by run.
use queuefy.Prelude.{
  ℕ, ◌≤◌, ◌<◌, ◌≡◌, refl, sym, ap, subst, ◌∙◌, inl, inr, ◌⊎◌, true, false, none, some, List, [],
  ◌∷◌, arith, ◌==◌, map, All, All-map, Bool-cases, Option-cases, ==_iff, ==_refl,
}
use mathlib.Core.Option.{some-injective}
use queuefy.Prelude.Int.{pos, ◌≤ℤ◌, ◌+ℤ◌, ◌==ℤ◌, ==ℤ_iff}
use queuefy.Prelude.Text.{Text}
use queuefy.Prelude.Assoc.{lookup, lookup-All, Distinct, take-Distinct}
use queuefy.Run.{Run, Instant, pending, running, same_status}
use queuefy.Store.Memory.Rows.{Entry, MemoryStore, get}
use queuefy.Store.Memory.Claiming.{before, serves, claimable, ready, started, claim}
use queuefy.Store.Memory.Claiming.Order.{ready-Distinct}
use queuefy.Store.Memory.Claiming.Exact.{
  picked, claim_lem, picked-claimable, get-claim, picked_first,
}
use queuefy.Store.Memory.Invariant.{IsWellFormed}

-- An entry of a list of distinct numbers is the one that stands under its number.
entries_there : (es : List Entry) → Distinct es → All (λ (x : Entry). lookup x.0 es ≡ some x.1) es
unfolding lookup
entries_there [] d = tt
entries_there ((k, v) ∷ es) (new, d) =
    (rw (==_refl k) refl, All-map (λ (x : Entry) there. still x there) es (entries_there es d))
  where
    still : (x : Entry) → lookup x.0 es ≡ some x.1 → lookup x.0 ((k, v) ∷ es) ≡ some x.1
    still (j, a) there = elim (Bool-cases (k == j)) [
      | inl same ↦
          let one : k ≡ j = (==_iff k j).0 same in
          let gone : lookup j es ≡ none = subst (λ i. lookup i es ≡ none) one new in absurd (cc)
      | inr other ↦ rw other there
    ]

answers_of :
    (f : Run → Run) (P : Run → Type 0) (es : List Entry)
    → All (λ (x : Entry). P (f x.1)) es
    → All P (map (λ (x : Entry). f x.1) es)
answers_of f P [] h = tt
answers_of f P (x ∷ es) (h, later) = (h, answers_of f P es later)

module _ (s : MemoryStore) (worker : Text) (queues : List Text) (limit lease : ℕ) (moment : Instant)
    (v : IsWellFormed s) where
  -- What is picked stands under its number in the store, and carries it.
  abbrev Stands : Entry → Type 0
  Stands (j, a) =
      (lookup j (picked s queues limit moment) ≡ some a) × (get s j ≡ some a) × (a.id ≡ some j)

  picked_there : All Stands (picked s queues limit moment)
  picked_there =
      All-map (λ (x : Entry) there. stand x there) (picked s queues limit moment)
        (entries_there (picked s queues limit moment) (
          take-Distinct limit (ready s queues moment)
            (ready-Distinct s queues moment v.numbered.distinct)))
    where
      stand : (x : Entry) → lookup x.0 (picked s queues limit moment) ≡ some x.1 → Stands x
      stand (j, a) there =
          let (held, may) =
            picked-claimable s worker queues limit lease moment j a v.numbered.distinct there in
          (there, held, v.named j a held)

  -- What holds of each run that stands in the store among those picked holds of each that is answered.
  pub answered :
      (P : Run → Type 0)
      → ((j : ℕ) (a : Run)
          → lookup j (picked s queues limit moment) ≡ some a
          → a.id ≡ some j
          → P (started worker lease moment a))
      → All P (claim s worker queues limit lease moment).1
  answered P each = rw claim_lem (
      answers_of (started worker lease moment) P (picked s queues limit moment) (
        All-map (λ (x : Entry) h. each x.0 x.1 h.0 h.2) (picked s queues limit moment)
          picked_there))

  -- An answered run comes before a run that waits under a number.
  abbrev pub Earlier : ℕ → Run → Run → Type 0
  Earlier i r x =
      (r.priority +ℤ pos 1 ≤ℤ x.priority)
      ⊎ ((x.priority ≡ r.priority)
          × ((x.due_at < r.due_at)
              ⊎ ((x.due_at ≡ r.due_at) × ((j : ℕ) × (x.id ≡ some j) × (j < i)))))

  sooner :
      (i j : ℕ) (r a : Run)
      → before (j, a) (i, r) ≡ true
      → (j == i) ≡ false
      → (r.priority +ℤ pos 1 ≤ℤ a.priority)
        ⊎ ((a.priority ==ℤ r.priority ≡ true)
            × ((a.due_at < r.due_at) ⊎ ((a.due_at ≡ r.due_at) × (j < i))))
  unfolding before ◌+ℤ◌
  sooner i j r a first apart = ground arith

  earlier :
      (i j : ℕ) (r a : Run)
      → before (j, a) (i, r) ≡ true
      → (j == i) ≡ false
      → a.id ≡ some j
      → Earlier i r (started worker lease moment a)
  unfolding started
  earlier i j r a first apart id = elim (sooner i j r a first apart) [
    | inl urgent ↦ inl urgent
    | inr (even, inl due) ↦ inr ((==ℤ_iff a.priority r.priority).0 even, inl due)
    | inr (even, inr (due, low)) ↦
        inr ((==ℤ_iff a.priority r.priority).0 even, inr (due, (j, id, low)))
  ]

  may_be_claimed :
      (r : Run)
      → r.status ≡ pending
      → serves queues r.queue ≡ true
      → r.due_at ≤ moment
      → claimable queues moment r ≡ true
  unfolding claimable same_status
  may_be_claimed r waits served due = rw (waits, served) (ground arith)

  -- A run that still waits after the claim was not picked.
  left_out :
      (i : ℕ) (r : Run)
      → get s i ≡ some r
      → r.status ≡ pending
      → get (claim s worker queues limit lease moment).0 i ≡ some r
      → lookup i (picked s queues limit moment) ≡ none
  unfolding started
  left_out i r here waits left =
      let after = get-claim s worker queues limit lease moment i v.numbered.distinct in
      elim (Option-cases (lookup i (picked s queues limit moment))) [
        | inl absent ↦ absent
        | inr (a, there) ↦
            let runs : some r ≡ some (started worker lease moment a) =
              sym left ∙ after ∙ rw (there, here) refl in
            let same : r ≡ started worker lease moment a =
              some-injective r (started worker lease moment a) runs in
            let never : running ≡ pending = sym (ap (λ (x : Run). x.status) same) ∙ waits in
            absurd (cc)
      ]

  apart :
      (i j : ℕ) (a : Run)
      → lookup j (picked s queues limit moment) ≡ some a
      → lookup i (picked s queues limit moment) ≡ none
      → (j == i) ≡ false
  apart i j a there absent = elim (Bool-cases (j == i)) [
    | inl same ↦
        let one : j ≡ i = (==_iff j i).0 same in
        let here : lookup i (picked s queues limit moment) ≡ some a =
          subst (λ k. lookup k (picked s queues limit moment) ≡ some a) one there in
        absurd (cc)
    | inr other ↦ other
  ]

  -- A run of a served queue that waits, is due, and is as it was after a claim on a well-formed store
  -- comes after every run that the claim answers with: its priority is lower, or the same and it is
  -- due later, or due at the same instant under a higher number.
  pub claim_in_order :
      (i : ℕ) (r : Run)
      → get s i ≡ some r
      → r.status ≡ pending
      → serves queues r.queue ≡ true
      → r.due_at ≤ moment
      → get (claim s worker queues limit lease moment).0 i ≡ some r
      → All (Earlier i r) (claim s worker queues limit lease moment).1
  claim_in_order i r here waits served due left =
      let absent = left_out i r here waits left in
      answered (Earlier i r) λ j a there id.
        let first =
          lookup-All (λ (x : Entry). before x (i, r) ≡ true) j a (picked s queues limit moment)
            (picked_first s queues limit moment i r v.numbered.distinct here
              (may_be_claimed r waits served due) absent)
            there in
        earlier i j r a first (apart i j a there absent) id
