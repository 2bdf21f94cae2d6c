-- ===== src/Store/Redis/Kept.antt =====
-- Where the runs of src/queuefy/store/redis.py wait, as what its keys hold of each.
pub mod Moves
pub mod Growth
use queuefy.Prelude.{
  ℕ, suc, ◌≤◌, ◌<◌, ◌≡◌, refl, sym, subst, ◌∙◌, inl, inr, Bool, true, false, ◌&&◌, ◌||◌, Option,
  none, some, [], ◌∷◌, arith, ◌==◌, if◌then◌else◌, Bool-cases, ==_iff, ==_refl, All-map,
}
use mathlib.Core.Option.{some-injective}
use queuefy.Prelude.Int.{ℤ, ==ℤ_iff}
use queuefy.Prelude.Text.{Text, eq_refl, eq_of_test}
use queuefy.Prelude.Assoc.{
  lookup-put, lookup-append, lookup-remove, put-Distinct, put_keys, append-Distinct, append-All,
  remove-Distinct, remove-All, lookup_past,
}
use queuefy.Run.{Run, Instant}
use queuefy.Store.Memory.Rows.{Entry, MemoryStore, get}
use queuefy.Store.Memory.Invariant.Numbers.{Numbered}
use queuefy.Store.Redis.Places.{Place, same_place, same_place_lem, stamp, waiting_in}
use queuefy.Store.Redis.Commands.{
  Keyspace, rescored, rehashed, renamed, counted, hashed, unhashed, levelled, lists,
}

module _ (number : ℤ → ℤ) where
  abbrev pub score_of : Option Instant → Option ℤ
  score_of none = none
  score_of (some at) = some (number (stamp at))

  -- The score that a run has in a set: its own in the set that `waiting_in` names, and none elsewhere.
  abbrev pub wants : Run → Place → Option ℤ
  wants run place =
      if same_place place (waiting_in run).0 then score_of (waiting_in run).1 else none

  -- What the keys hold of one run.
  pub record Fits (k : Keyspace) (i : ℕ) (run : Run) : Type 0 where
    pub placed : (p : Place) → k.score p i ≡ wants run p
    pub named : (key : Text) → run.key ≡ some key → k.names key ≡ some (some i)
    pub level : lists run.priority (k.levels run.queue) ≡ true

  -- Every run waits in the set of its state and nowhere else, its key is its own, and its priority
  -- is listed for its queue; no set holds a number that was not given.
  pub record IsKept (k : Keyspace) : Type 0 where
    pub numbered : Numbered k.rows
    pub fits : (i : ℕ) (run : Run) → get k.rows i ≡ some run → Fits k i run
    pub unseen : (p : Place) (i : ℕ) → k.rows.sequence ≤ i → k.score p i ≡ none

  -- The same of every other run, while one is on its way to a set and is in none but that.
  pub record IsMoving (i : ℕ) (home : Place) (k : Keyspace) : Type 0 where
    pub numbered : Numbered k.rows
    pub fits : (j : ℕ) (run : Run) → (j == i) ≡ false → get k.rows j ≡ some run → Fits k j run
    pub unseen : (p : Place) (j : ℕ) → k.rows.sequence ≤ j → k.score p j ≡ none
    pub given : i < k.rows.sequence
    pub away : (p : Place) → same_place p home ≡ false → k.score p i ≡ none

  pub arrived :
      (i : ℕ) (home : Place) (k : Keyspace) (run : Run)
      → IsMoving i home k
      → get k.rows i ≡ some run
      → Fits k i run
      → IsKept k
  arrived i home k run m here f = record {
    numbered = m.numbered;
    fits = λ j r there. elim (Bool-cases (j == i)) [
      | inl this ↦
          let e : j ≡ i = (==_iff j i).0 this in
          let same : r ≡ run = some-injective r run (sym there ∙ rw e here) in
          subst (λ r'. Fits k j r') (sym same) (subst (λ j'. Fits k j' run) (sym e) f)
      | inr other ↦ m.fits j r other there
    ];
    unseen = m.unseen;
  }

  -- Only the score of its own run has changed in a set.
  pub rescored-Fits :
      (p : Place) (i : ℕ) (x : Option ℤ) (k : Keyspace) (j : ℕ) (run : Run)
      → (j == i) ≡ false
      → Fits k j run
      → Fits (rescored p i x k) j run
  rescored-Fits p i x k j run other f = record {
    placed = λ q. elim (Bool-cases (same_place q p)) [
      | inl this ↦ rw (this, other) (f.placed q)
      | inr elsewhere ↦ rw elsewhere (f.placed q)
    ];
    named = f.named;
    level = f.level;
  }

  -- The sets hold no number past the sequence after a score of a number that was given.
  pub rescored-unseen :
      (p : Place) (i : ℕ) (x : Option ℤ) (k : Keyspace)
      → i < k.rows.sequence
      → ((q : Place) (j : ℕ) → k.rows.sequence ≤ j → k.score q j ≡ none)
      → (q : Place) (j : ℕ) → k.rows.sequence ≤ j
      → (rescored p i x k).score q j ≡ none
  rescored-unseen p i x k given u q j past = elim (Bool-cases (j == i)) [
    | inl this ↦ absurd (omega (arith, (==_iff j i).0 this))
    | inr other ↦ elim (Bool-cases (same_place q p)) [
      | inl here ↦ rw (here, other) (u q j past)
      | inr elsewhere ↦ rw elsewhere (u q j past)
    ]
  ]

  -- A run that is taken out of the set it waits in is in none.
  pub taken_out :
      (p home : Place) (i : ℕ) (k : Keyspace) (run : Run)
      → IsKept k
      → get k.rows i ≡ some run
      → i < k.rows.sequence
      → (waiting_in run).0 ≡ p
      → IsMoving i home (rescored p i none k)
  taken_out p home i k run v here given at = record {
    numbered = v.numbered;
    fits = λ j r other there. rescored-Fits p i none k j r other (v.fits j r there);
    unseen = rescored-unseen p i none k given v.unseen;
    given = given;
    away = λ q _. elim (Bool-cases (same_place q p)) [
      | inl this ↦ rw (this, ==_refl i) refl
      | inr other ↦ rw other ((v.fits i run here).placed q ∙ rw (at, other) refl)
    ];
  }

  -- A run that stays in the set it waits in is in no other.
  pub staying :
      (home : Place) (i : ℕ) (k : Keyspace) (run : Run)
      → IsKept k
      → get k.rows i ≡ some run
      → i < k.rows.sequence
      → (waiting_in run).0 ≡ home
      → IsMoving i home k
  staying home i k run v here given at = record {
    numbered = v.numbered;
    fits = λ j r other there. v.fits j r there;
    unseen = v.unseen;
    given = given;
    away = λ q other. (v.fits i run here).placed q ∙ rw (at, other) refl;
  }

  pub rehashed-IsMoving :
      (i : ℕ) (home : Place) (r : Run) (k : Keyspace)
      → IsMoving i home k
      → IsMoving i home (rehashed i r k)
  unfolding get
  rehashed-IsMoving i home r k m = record {
    numbered = record {
      distinct = put-Distinct i r k.rows.runs m.numbered.distinct;
      below =
          put_keys (λ (e : Entry). e.0 < k.rows.sequence) i r k.rows.runs (λ j v w l. l)
            m.numbered.below;
    };
    fits = λ j run other there.
        unhashed_fits j run other (ground (arith, lookup-put i j r k.rows.runs));
    unseen = m.unseen;
    given = m.given;
    away = m.away;
  }
    where
      unhashed_fits :
          (j : ℕ) (run : Run)
          → (j == i) ≡ false
          → get k.rows j ≡ some run
          → Fits (rehashed i r k) j run
      unhashed_fits j run other there =
          let f = m.fits j run other there in
          record { placed = f.placed; named = f.named; level = f.level }

  pub get-rehashed :
      (i : ℕ) (r old : Run) (k : Keyspace)
      → get k.rows i ≡ some old
      → get (rehashed i r k).rows i ≡ some r
  unfolding get
  get-rehashed i r old k here = ground (arith, lookup-put i i r k.rows.runs)

  -- The set that a run moves to holds it where that run belongs.
  pub seated :
      (i : ℕ) (home : Place) (at : Instant) (k : Keyspace) (run : Run)
      → IsMoving i home k
      → get k.rows i ≡ some run
      → waiting_in run ≡ (home, some at)
      → ((key : Text) → run.key ≡ some key → k.names key ≡ some (some i))
      → lists run.priority (k.levels run.queue) ≡ true
      → IsKept (rescored home i (some (number (stamp at))) k)
  seated i home at k run m here belongs named level =
      arrived i home (rescored home i (some (number (stamp at))) k) run
        (record {
          numbered = m.numbered;
          fits = λ j r other there.
              rescored-Fits home i (some (number (stamp at))) k j r other (m.fits j r other there);
          unseen = rescored-unseen home i (some (number (stamp at))) k m.given m.unseen;
          given = m.given;
          away = λ q other. rw other (m.away q other);
        })
        here
        (record {
          placed = λ q. elim (Bool-cases (same_place q home)) [
            | inl this ↦ rw (this, ==_refl i, belongs, this) refl
            | inr other ↦ rw (other, belongs, other) (m.away q other)
          ];
          named = named;
          level = level;
        })

  -- A number of no run may be in any set or in none.
  pub forgotten :
      (p : Place) (i : ℕ) (k : Keyspace)
      → IsKept k
      → get k.rows i ≡ none
      → IsKept (rescored p i none k)
  forgotten p i k v gone = record {
    numbered = v.numbered;
    fits = λ j r there. elim (Bool-cases (j == i)) [
      | inl this ↦
          let never : some r ≡ none = sym there ∙ rw ((==_iff j i).0 this) gone in absurd (cc)
      | inr other ↦ rescored-Fits p i none k j r other (v.fits j r there)
    ];
    unseen = λ q j past. elim (Bool-cases (same_place q p && j == i)) [
      | inl this ↦ rw this refl
      | inr other ↦ rw other (v.unseen q j past)
    ];
  }

  -- A set that does not hold a number may be told to let it go.
  pub let_go :
      (p : Place) (i : ℕ) (k : Keyspace)
      → IsKept k
      → k.score p i ≡ none
      → IsKept (rescored p i none k)
  let_go p i k v absent = record {
    numbered = v.numbered;
    fits = λ j r there.
        let f = v.fits j r there in
        record { placed = λ q. out q j ∙ f.placed q; named = f.named; level = f.level };
    unseen = λ q j past. out q j ∙ v.unseen q j past;
  }
    where
      out : (q : Place) (j : ℕ) → (rescored p i none k).score q j ≡ k.score q j
      out q j = elim (Bool-cases (same_place q p && j == i)) [
        | inl this ↦
            let there : q ≡ p = same_place_lem q p (ground arith) in
            let number_is : j ≡ i = (==_iff j i).0 (ground arith) in
            rw this (sym absent ∙ rw (there, number_is) refl)
        | inr other ↦ rw other refl
      ]
