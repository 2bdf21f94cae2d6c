-- ===== src/Store/Contract/History.antt =====
-- What any store that keeps the contract promises over every history of calls.
use queuefy.Prelude.{
  ℕ, ◌<◌, ◌≤◌, ◌≡◌, sym, ◌∙◌, inl, inr, ◌⊎◌, true, false, none, some, List, [], Option, ◌∷◌, arith,
  All, Bool-cases,
}
use mathlib.Core.Option.{some-injective}
use queuefy.Prelude.Assoc.{lookup-All}
use queuefy.Run.{Run, pending, same_status, is_settled}
use queuefy.Store.Memory.Rows.{MemoryStore, get}
use queuefy.Store.Memory.Rows.Exact.{Below}
use queuefy.Store.Memory.Holding.{holds}
use queuefy.Store.Memory.Sweeping.{expired}
use queuefy.Store.Memory.Life.{
  Call, Row, Change, claimed, acted, lapsed, withdrawn, same, changes, appears, drops, frees,
}
use queuefy.Store.Memory.Invariant.{IsWellFormed, Admissible, Row-IsWellFormed}
use queuefy.Store.Memory.Invariant.Numbers.{raise-Numbered}
use queuefy.Store.Contract.{Contract}

pub get-Below : (s : MemoryStore) (i : ℕ) (a : Run) → Below s → get s i ≡ some a → i < s.sequence
unfolding get
get-Below s i a b h = lookup-All (λ e. e.0 < s.sequence) i a s.runs b h

-- A change needs a run that waits or runs.
Change-not-settled : (a b : Run) → Change a b → is_settled a.status ≡ true → ⊥
unfolding is_settled same_status holds expired
Change-not-settled a b (claimed worker lease moment w e) h = ground arith
Change-not-settled a b (acted worker attempt x w e) h = ground arith
Change-not-settled a b (lapsed moment w e) h = ground arith
Change-not-settled a b (withdrawn moment w e) h = ground arith

-- The run is as it ended, or it was pruned, and its number is never given again.
abbrev pub IsFinal : MemoryStore → ℕ → Run → Type 0
IsFinal s i a = (get s i ≡ some a) ⊎ ((get s i ≡ none) × (i < s.sequence))

final-Row :
    (s : MemoryStore) (c : Call) (i : ℕ) (a : Run) {o : Option Run}
    → Row s c i o
    → i < s.sequence
    → is_settled a.status ≡ true
    → IsFinal s i a
    → (o ≡ some a) ⊎ (o ≡ none)
final-Row s c i a (same e) b over (inl h) = inl (e ∙ h)
final-Row s c i a (same e) b over (inr h) = inr (e ∙ h.0)
final-Row s c i a (changes x y h e w _) b over (inl h') =
    let this : x ≡ a = some-injective x a (sym h ∙ h') in
    absurd (Change-not-settled x y w (rw this over))
final-Row s c i a (changes x y h e w _) b over (inr h') = absurd (cc)
final-Row s c i a (appears run call at_end absent free e) b over h = absurd (omega arith)
final-Row s c i a (drops x h over' e) b over h' = inr e

-- The number names a run that does not wait, or no run any more.
abbrev pub IsTaken : MemoryStore → ℕ → Type 0
IsTaken s i =
    (i < s.sequence) × ((a : Run) → get s i ≡ some a → same_status a.status pending ≡ false)

taken-Row :
    (s : MemoryStore) (c : Call) (i : ℕ) {o : Option Run} (b : Run)
    → Row s c i o
    → IsTaken s i
    → ((a : Run) → get s i ≡ some a → frees c i a ≡ false)
    → o ≡ some b
    → same_status b.status pending ≡ false
taken-Row s c i b (same e) t f h = t.1 b (sym e ∙ h)
taken-Row s c i b (changes x y here e w back) t f h =
    let this : y ≡ b = some-injective y b (sym e ∙ h) in
    elim (Bool-cases (same_status b.status pending)) [
      | inl waits ↦
          let freed : frees c i x ≡ true = back (rw this waits) in
          let not_freed : frees c i x ≡ false = f x here in absurd (cc)
      | inr not_waiting ↦ not_waiting
    ]
taken-Row s c i b (appears run call at_end absent free e) t f h = absurd (omega arith)
taken-Row s c i b (drops x here over e) t f h = absurd (cc)

-- Numbers that are not given yet can be passed over.
raise-IsWellFormed :
    (s : MemoryStore) (n : ℕ)
    → s.sequence ≤ n
    → IsWellFormed s
    → IsWellFormed (record s { sequence = n })
unfolding get
raise-IsWellFormed s n low v = record {
  numbered = raise-Numbered s n low v.numbered;
  named = v.named;
  coherent = v.coherent;
  single = v.single;
}

raise-IsFinal :
    (s : MemoryStore) (n i : ℕ) (a : Run)
    → s.sequence ≤ n
    → IsFinal s i a
    → IsFinal (record s { sequence = n }) i a
unfolding get
raise-IsFinal s n i a low (inl here) = inl here
raise-IsFinal s n i a low (inr (gone, b)) = inr (gone, omega arith)

module _ {W : Type 0} (k : Contract W) where
  unfoldable pub after : W → List Call → W
  after w [] = w
  after w (c ∷ cs) = after (k.next w c) cs

  next-IsWellFormed :
      (w : W) (c : Call)
      → k.IsSound w
      → k.Takes c
      → IsWellFormed (k.view w)
      → Admissible c
      → IsWellFormed (k.view (k.next w c))
  next-IsWellFormed w c u takes v ok =
      let (n, low, rows) = k.changes w c u takes in
      Row-IsWellFormed (record (k.view w) { sequence = n }) (k.view (k.next w c)) c
        (raise-IsWellFormed (k.view w) n low v) ok rows
        (k.numbered (k.next w c) (k.stays w c u takes))

  pub after-IsSound :
      (w : W) (cs : List Call) → k.IsSound w → All k.Takes cs → k.IsSound (after w cs)
  unfolding after
  after-IsSound w [] u takes = u
  after-IsSound w (c ∷ cs) u (takes, later) =
      after-IsSound (k.next w c) cs (k.stays w c u takes) later

  pub after-IsWellFormed :
      (w : W) (cs : List Call)
      → k.IsSound w
      → All k.Takes cs
      → IsWellFormed (k.view w)
      → All Admissible cs
      → IsWellFormed (k.view (after w cs))
  unfolding after
  after-IsWellFormed w [] u takes v ok = v
  after-IsWellFormed w (c ∷ cs) u (takes, later) v ok =
      after-IsWellFormed (k.next w c) cs (k.stays w c u takes) later
        (next-IsWellFormed w c u takes v ok.0) ok.1

  next-IsFinal :
      (w : W) (c : Call) (i : ℕ) (a : Run)
      → k.IsSound w
      → k.Takes c
      → is_settled a.status ≡ true
      → i < (k.view w).sequence
      → IsFinal (k.view w) i a
      → IsFinal (k.view (k.next w c)) i a
  next-IsFinal w c i a u takes over b f =
      let (n, low, rows) = k.changes w c u takes in
      elim (final-Row (record (k.view w) { sequence = n }) c i a (rows i) (omega arith) over
        (raise-IsFinal (k.view w) n i a low f)) [
          | inl here ↦ inl here
          | inr gone ↦ inr (gone, omega (arith, k.grows w c u takes))
        ]

  after-IsFinal :
      (w : W) (cs : List Call) (i : ℕ) (a : Run)
      → k.IsSound w
      → All k.Takes cs
      → is_settled a.status ≡ true
      → i < (k.view w).sequence
      → IsFinal (k.view w) i a
      → IsFinal (k.view (after w cs)) i a
  unfolding after
  after-IsFinal w [] i a u takes over b f = f
  after-IsFinal w (c ∷ cs) i a u (takes, later) over b f =
      after-IsFinal (k.next w c) cs i a (k.stays w c u takes) later over
        (omega (arith, k.grows w c u takes)) (next-IsFinal w c i a u takes over b f)

  -- A run that is over stays as it ended, field for field, or names no run any more.
  pub settled_stays :
      (w : W) (cs : List Call) (i : ℕ) (a : Run)
      → k.IsSound w
      → All k.Takes cs
      → get (k.view w) i ≡ some a
      → is_settled a.status ≡ true
      → (get (k.view (after w cs)) i ≡ some a) ⊎ (get (k.view (after w cs)) i ≡ none)
  settled_stays w cs i a u takes here over =
      elim (after-IsFinal w cs i a u takes over
        (get-Below (k.view w) i a (k.numbered w u).below here) (inl here)) [
          | inl still ↦ inl still
          | inr gone ↦ inr gone.0
        ]

  -- No call of the history puts the run back in the queue: neither the attempt that holds it, nor a
  -- reclaim at an instant past its lease.
  abbrev pub Quiet : W → List Call → ℕ → Type 0
  Quiet w [] i = Unit
  Quiet w (c ∷ cs) i =
      ((a : Run) → get (k.view w) i ≡ some a → frees c i a ≡ false) × Quiet (k.next w c) cs i

  -- What is taken stays taken until a call puts it back.
  pub after-IsTaken :
      (w : W) (cs : List Call) (i : ℕ)
      → k.IsSound w
      → All k.Takes cs
      → IsTaken (k.view w) i
      → Quiet w cs i
      → IsTaken (k.view (after w cs)) i
  unfolding after get
  after-IsTaken w [] i u takes t q = t
  after-IsTaken w (c ∷ cs) i u (takes, later) t q =
      after-IsTaken (k.next w c) cs i (k.stays w c u takes) later
        (
          omega (arith, k.grows w c u takes),
          λ b h.
              let (n, low, rows) = k.changes w c u takes in
              taken-Row (record (k.view w) { sequence = n }) c i b (rows i) (omega arith, t.1) q.0
                h,
        )
        q.1

-- Every call of a history is taken by a store that takes them all.
pub All-any : (cs : List Call) → All (λ (c : Call). Unit {0}) cs
All-any [] = tt
All-any (c ∷ cs) = (tt, All-any cs)
