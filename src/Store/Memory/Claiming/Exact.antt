-- ===== src/Store/Memory/Claiming/Exact.antt =====
-- What one `claim` takes, and what it does to the runs.
use queuefy.Prelude.{
  ℕ, zero, suc, ◌+◌, ◌*◌, ◌≤◌, ◌≡◌, refl, ap, inl, inr, true, false, none, some, List, [], ◌∷◌,
  ◌++◌, arith, ◌==◌, length, take, keep, map, All, Bool-cases, min, length-map, length-take,
  length-append,
}
use mathlib.Core.List.{append-nil, append_assoc}
use queuefy.Prelude.Text.{Text}
use queuefy.Prelude.Assoc.{
  lookup, put, put_each, lookup-put_each, changed, take-Distinct, lookup-take, lookup-All, Distinct,
}
use queuefy.Run.{Run, Instant}
use queuefy.Store.Base.{claim_spread}
use queuefy.Store.Memory.Rows.{Entry, MemoryStore, get}
use queuefy.Store.Memory.Claiming.{before, ready, claimable, started, claim, claim_loop}
use queuefy.Store.Memory.Claiming.Order.{
  Ordered, ready-Ordered, length-sort, ready-Distinct, lookup-ready,
}

-- The entries that a claim takes.
abbrev pub picked : MemoryStore → List Text → ℕ → Instant → List Entry
picked s queues limit moment = take limit (ready s queues moment)

take-take : (m n : ℕ) (es : List Entry) → m ≤ n → take m (take n es) ≡ take m es
take-take zero n es h = refl
take-take (suc m) zero es h = absurd (omega arith)
take-take (suc m) (suc n) [] h = refl
take-take (suc m) (suc n) (e ∷ es) h = ap (◌∷◌ e) (take-take m n es (omega arith))

module _ (start : Run → Run) (limit : ℕ) where
  -- The loop stops once it has taken `limit` runs, and takes every candidate until then.
  claim_loop_lem :
      (es : List Entry) (room : ℕ) (acc : List Run) (m : List Entry)
      → length acc + room ≡ limit
      → claim_loop start limit es acc m
        ≡ (put_each start (take room es) m, acc ++ map (λ (e : Entry). start e.1) (take room es))
  unfolding claim_loop put_each
  claim_loop_lem [] zero acc m h = rw append-nil
  claim_loop_lem [] (suc room) acc m h = rw append-nil
  claim_loop_lem ((i, r) ∷ es) zero acc m h =
      let stop : (length acc == limit) ≡ true = ground arith in rw (stop, append-nil)
  claim_loop_lem ((i, r) ∷ es) (suc room) acc m h =
      let go : (length acc == limit) ≡ false = ground arith in
      let more =
        claim_loop_lem es room (acc ++ start r ∷ []) (put i (start r) m)
          (omega (arith, length-append acc (start r ∷ []))) in
      rw go (rw append_assoc at more)

module _ (s : MemoryStore) (worker : Text) (queues : List Text) (limit lease : ℕ)
    (moment : Instant) where
  pub claim_lem : claim s worker queues limit lease moment ≡ (
    record s {
      runs = put_each (started worker lease moment) (picked s queues limit moment) s.runs;
    },
    map (λ (e : Entry). started worker lease moment e.1) (picked s queues limit moment),
  )
  unfolding claim
  claim_lem =
      rw
        (
          claim_loop_lem (started worker lease moment) limit
              (take (limit * claim_spread) (ready s queues moment)) limit [] s.runs (omega arith),
          take-take limit (limit * claim_spread) (ready s queues moment) (omega arith),
        )
        refl

  -- A claim answers with as many runs as may be claimed, up to its limit.
  pub length-claim :
      length (claim s worker queues limit lease moment).1
      ≡ min limit (length (keep (λ (e : Entry). claimable queues moment e.1) s.runs))
  unfolding ready
  length-claim = rw claim_lem (
      omega (
        arith,
        length-map (λ (e : Entry). started worker lease moment e.1) (picked s queues limit moment),
        length-take limit (ready s queues moment),
        length-sort (keep (λ (e : Entry). claimable queues moment e.1) s.runs),
      ))

  -- Every run that a claim picks could be claimed, and is the one that the store holds.
  pub picked-claimable :
      (i : ℕ) (r : Run)
      → Distinct s.runs
      → lookup i (picked s queues limit moment) ≡ some r
      → (get s i ≡ some r) × (claimable queues moment r ≡ true)
  unfolding get
  picked-claimable i r d e =
      ground
        (arith, lookup-take limit i (ready s queues moment) r e, lookup-ready s queues moment i d)

  -- The runs that a claim picks are started in the store, and no other changes.
  pub get-claim :
      (i : ℕ)
      → Distinct s.runs
      → get (claim s worker queues limit lease moment).0 i
        ≡ changed (started worker lease moment) (lookup i (picked s queues limit moment)) (get s i)
  unfolding get
  get-claim i d = rw claim_lem (
      lookup-put_each (started worker lease moment) i (picked s queues limit moment) s.runs
        (take-Distinct limit (ready s queues moment) (ready-Distinct s queues moment d)))

left_behind :
    (n i : ℕ) (r : Run) (es : List Entry)
    → Ordered es
    → lookup i es ≡ some r
    → lookup i (take n es) ≡ none
    → All (λ e. before e (i, r) ≡ true) (take n es)
unfolding lookup
left_behind zero i r es o e absent = tt
left_behind (suc n) i r [] o e absent = tt
left_behind (suc n) i r ((k, x) ∷ es) o e absent = elim (Bool-cases (k == i)) [
  | inl same ↦ let gone : some x ≡ none = rw same at absent in absurd (cc)
  | inr other ↦
      let there : lookup i es ≡ some r = rw other at e in
      (
        lookup-All (λ y. before (k, x) y ≡ true) i r es o.0 there,
        left_behind n i r es o.1 there (rw other at absent),
      )
]

-- Whoever may be claimed and is left behind comes after every run that was picked.
pub picked_first :
    (s : MemoryStore) (queues : List Text) (limit : ℕ) (moment : Instant) (i : ℕ) (r : Run)
    → Distinct s.runs
    → get s i ≡ some r
    → claimable queues moment r ≡ true
    → lookup i (picked s queues limit moment) ≡ none
    → All (λ e. before e (i, r) ≡ true) (picked s queues limit moment)
unfolding get
picked_first s queues limit moment i r d e c absent =
    left_behind limit i r (ready s queues moment) (ready-Ordered s queues moment)
      (ground (arith, lookup-ready s queues moment i d)) absent
