-- ===== src/Store/Redis/Kept/Growth.antt =====
-- The commands by which ADD of src/queuefy/store/redis.py writes a run that was not there, and those
-- by which PURGE drops one.
use queuefy.Prelude.{
  true, ℕ, ◌<◌, ◌≡◌, inl, inr, false, none, some, Option, [], ◌∷◌, arith, ◌==◌, if◌then◌else◌,
  Bool-cases, All-map,
}
use queuefy.Prelude.Int.{ℤ}
use queuefy.Prelude.Text.{Text, eq_of_test, ◌==◌ as text_eq}
use queuefy.Prelude.Assoc.{lookup, lookup-append, append-Distinct, append-All}
use queuefy.Run.{Run}
use queuefy.Store.Memory.Rows.{Entry, get}
use queuefy.Store.Redis.Places.{Place}
use queuefy.Store.Redis.Commands.{Keyspace, lists, rescored, renamed, counted, hashed, levelled}
use queuefy.Store.Redis.Kept.{Fits, IsKept, IsMoving, rescored-Fits, rescored-unseen}

module _ (number : ℤ → ℤ) where
  -- A key that no other run has may be anybody's.
  pub renamed-Fits :
      (key : Text) (x : Option (Option ℕ)) (k : Keyspace) (j : ℕ) (run : Run)
      → (run.key ≡ some key → ⊥)
      → Fits number k j run
      → Fits number (renamed key x k) j run
  renamed-Fits key x k j run not_its f = record {
    placed = f.placed;
    named = λ other e. elim (Bool-cases (text_eq other key)) [
      | inl this ↦ absurd (not_its (rw (← eq_of_test other key this) e))
      | inr differs ↦ rw differs (f.named other e)
    ];
    level = f.level;
  }

  pub renamed-IsKept :
      (key : Text) (x : Option (Option ℕ)) (k : Keyspace)
      → ((j : ℕ) (run : Run) → get k.rows j ≡ some run → run.key ≡ some key → ⊥)
      → IsKept number k
      → IsKept number (renamed key x k)
  renamed-IsKept key x k nobody v = record {
    numbered = v.numbered;
    fits = λ j run there. renamed-Fits key x k j run (nobody j run there) (v.fits j run there);
    unseen = v.unseen;
  }

  module _ (i : ℕ) (home : Place) where
    pub renamed-IsMoving :
        (key : Text) (x : Option (Option ℕ)) (k : Keyspace)
        → ((j : ℕ) (run : Run)
            → (j == i) ≡ false
            → get k.rows j ≡ some run
            → run.key ≡ some key
            → ⊥)
        → IsMoving number i home k
        → IsMoving number i home (renamed key x k)
    renamed-IsMoving key x k nobody m = record {
      numbered = m.numbered;
      fits = λ j run other there.
          renamed-Fits key x k j run (nobody j run other there) (m.fits j run other there);
      unseen = m.unseen;
      given = m.given;
      away = m.away;
    }

    pub rescored-IsMoving :
        (x : Option ℤ) (k : Keyspace)
        → IsMoving number i home k
        → IsMoving number i home (rescored home i x k)
    rescored-IsMoving x k m = record {
      numbered = m.numbered;
      fits = λ j run other there.
          rescored-Fits number home i x k j run other (m.fits j run other there);
      unseen = rescored-unseen number home i x k m.given m.unseen;
      given = m.given;
      away = λ q other. rw other (m.away q other);
    }

    pub levelled-IsMoving :
        (queue : Text) (level : ℤ) (k : Keyspace)
        → IsMoving number i home k
        → IsMoving number i home (levelled queue level k)
    levelled-IsMoving queue level k m = record {
      numbered = m.numbered;
      fits = λ j run other there.
          let f = m.fits j run other there in
          record { placed = f.placed; named = f.named; level = still_listed run f.level };
      unseen = m.unseen;
      given = m.given;
      away = m.away;
    }
      where
        still_listed :
            (run : Run)
            → lists run.priority (k.levels run.queue) ≡ true
            → lists run.priority ((levelled queue level k).levels run.queue) ≡ true
        still_listed run listed = elim (Bool-cases (text_eq run.queue queue)) [
          | inl this ↦ rw (this, listed) (ground arith)
          | inr other ↦ rw other listed
        ]

    pub hashed-IsMoving :
        (r : Run) (k : Keyspace)
        → get k.rows i ≡ none
        → IsMoving number i home k
        → IsMoving number i home (hashed i r k)
    unfolding get lookup
    hashed-IsMoving r k free m = record {
      numbered = record {
        distinct = append-Distinct i r k.rows.runs free m.numbered.distinct;
        below =
            append-All (λ (e : Entry). e.0 < k.rows.sequence) (i, r) k.rows.runs m.given
              m.numbered.below;
      };
      fits = λ j run other there.
          let f = m.fits j run other (ground (arith, lookup-append j k.rows.runs ((i, r) ∷ []))) in
          record { placed = f.placed; named = f.named; level = f.level };
      unseen = m.unseen;
      given = m.given;
      away = m.away;
    }

  pub get-hashed :
      (i : ℕ) (r : Run) (k : Keyspace) (j : ℕ)
      → get k.rows i ≡ none
      → get (hashed i r k).rows j ≡ (if i == j then some r else get k.rows j)
  unfolding get lookup
  get-hashed i r k j free = ground (arith, lookup-append j k.rows.runs ((i, r) ∷ []))

  -- The next number is in no set, so the run that takes it may go to any.
  pub counted-IsMoving :
      (home : Place) (k : Keyspace)
      → IsKept number k
      → IsMoving number k.rows.sequence home (counted k)
  unfolding get
  counted-IsMoving home k v = record {
    numbered = record {
      distinct = v.numbered.distinct;
      below =
          All-map (λ (e : Entry) (l : e.0 < k.rows.sequence). omega arith) k.rows.runs
            v.numbered.below;
    };
    fits = λ j run other there.
        let f = v.fits j run there in
        record { placed = f.placed; named = f.named; level = f.level };
    unseen = λ p j past. v.unseen p j (omega arith);
    given = omega arith;
    away = λ p _. v.unseen p k.rows.sequence (omega arith);
  }
