-- ===== src/Store/Redis/Writing/Added.antt =====
-- What ADD of src/queuefy/store/redis.py leaves behind.
use queuefy.Prelude.{
  ℕ, ◌≡◌, refl, sym, ◌∙◌, inl, inr, true, false, none, some, Option, arith, ◌==◌, if◌then◌else◌,
  Bool-cases, ==_refl,
}
use mathlib.Core.Option.{some-injective}
use queuefy.Prelude.Int.{ℤ, ==ℤ_iff}
use queuefy.Prelude.Text.{Text, eq_refl}
use queuefy.Run.{Run, Instant}
use queuefy.Store.Memory.Rows.{get}
use queuefy.Store.Memory.Rows.Exact.{get-sequence}
use queuefy.Store.Redis.Places.{Place, same_place, stamp, waiting_in}
use queuefy.Store.Redis.Commands.{Keyspace, lists, rescored, renamed, counted, hashed, levelled}
use queuefy.Store.Redis.Kept.{IsKept, IsMoving, arrived, wants, score_of}
use queuefy.Store.Redis.Kept.Growth.{
  renamed-IsMoving, rescored-IsMoving, levelled-IsMoving, hashed-IsMoving, get-hashed,
  counted-IsMoving,
}

module _ (number : ℤ → ℤ) (run : Run) (k : Keyspace) where
  abbrev pub n : ℕ
  n = k.rows.sequence

  abbrev pub numbered : Run
  numbered = record run { id = some n }

  -- The keys after each command.
  abbrev pub recorded : Keyspace
  recorded = levelled run.queue run.priority (hashed n numbered (counted k))

  abbrev pub seated_at : Place → Option Instant → Keyspace → Keyspace
  seated_at home none k' = k'
  seated_at home (some at) k' = rescored home n (some (number (stamp at))) k'

  abbrev pub assigned : Option Text → Keyspace → Keyspace
  assigned none k' = k'
  assigned (some key) k' = renamed key (some (some n)) k'

  abbrev pub grown : Keyspace
  grown = assigned run.key (seated_at (waiting_in run).0 (waiting_in run).1 recorded)

  module _ (v : IsKept number k) where
    pub free : get k.rows n ≡ none
    free = get-sequence k.rows v.numbered.below

    recorded-IsMoving : (home : Place) → IsMoving number n home recorded
    unfolding get
    recorded-IsMoving home =
        levelled-IsMoving number n home run.queue run.priority (hashed n numbered (counted k)) (
          hashed-IsMoving number n home numbered (counted k) free
            (counted-IsMoving number home k v))

    get-recorded : (j : ℕ) → get recorded.rows j ≡ (if n == j then some numbered else get k.rows j)
    unfolding get
    get-recorded j = get-hashed number n numbered (counted k) j free

    placed_at :
        (home : Place) (at : Option Instant) (p : Place)
        → (seated_at home at recorded).score p n
          ≡ (if same_place p home then score_of number at else none)
    placed_at home none p = rw (v.unseen p n (omega arith)) (ground arith)
    placed_at home (some at) p = elim (Bool-cases (same_place p home)) [
      | inl this ↦ rw (this, ==_refl n) refl
      | inr other ↦ rw other (v.unseen p n (omega arith))
    ]

    seated-IsMoving :
        (home : Place) (at : Option Instant) → IsMoving number n home (seated_at home at recorded)
    seated-IsMoving home none = recorded-IsMoving home
    seated-IsMoving home (some at) =
        rescored-IsMoving number n home (some (number (stamp at))) recorded (recorded-IsMoving home)

    -- No run of the keys has a key.
    abbrev pub Unused : Option Text → Type 0
    Unused none = Unit
    Unused (some key) = (j : ℕ) (r : Run) → get k.rows j ≡ some r → r.key ≡ some key → ⊥

    assigned-IsKept :
        (key : Option Text) (home : Place) (k' : Keyspace)
        → run.key ≡ key
        → Unused key
        → IsMoving number n home k'
        → ((j : ℕ) → get k'.rows j ≡ (if n == j then some numbered else get k.rows j))
        → ((p : Place) → k'.score p n ≡ wants number numbered p)
        → lists run.priority (k'.levels run.queue) ≡ true
        → IsKept number (assigned key k')
    assigned-IsKept none home k' its unused m rows placed level =
        arrived number n home k' numbered m (rows n ∙ rw (==_refl n) refl) (record {
          placed = placed;
          named = λ key e. let never : some key ≡ none = sym e ∙ its in absurd (cc);
          level = level;
        })
    assigned-IsKept (some key) home k' its unused m rows placed level =
        arrived number n home (renamed key (some (some n)) k') numbered
          (renamed-IsMoving number n home key (some (some n)) k'
            (λ j r other there e. unused j r (sym (rows j ∙ rw (differs j other) refl) ∙ there) e)
            m)
          (rows n ∙ rw (==_refl n) refl)
          (record {
            placed = placed;
            named = λ other e. rw (is_key other e, eq_refl key) refl;
            level = level;
          })
      where
        differs : (j : ℕ) → (j == n) ≡ false → (n == j) ≡ false
        differs j other = ground arith

        is_key : (other : Text) → run.key ≡ some other → other ≡ key
        is_key other e = some-injective other key (sym e ∙ its)

    pub seated_rows :
        (home : Place) (at : Option Instant) (j : ℕ)
        → get (seated_at home at recorded).rows j ≡ (if n == j then some numbered else get k.rows j)
    seated_rows home none j = get-recorded j
    seated_rows home (some at) j = get-recorded j

    seated_level :
        (home : Place) (at : Option Instant)
        → lists run.priority ((seated_at home at recorded).levels run.queue) ≡ true
    seated_level home none = rw (eq_refl run.queue, (==ℤ_iff run.priority run.priority).1 refl) refl
    seated_level home (some at) =
        rw (eq_refl run.queue, (==ℤ_iff run.priority run.priority).1 refl) refl

    pub grown-IsKept : Unused run.key → IsKept number grown
    unfolding waiting_in
    grown-IsKept unused =
        assigned-IsKept run.key (waiting_in run).0
          (seated_at (waiting_in run).0 (waiting_in run).1 recorded) refl unused
          (seated-IsMoving (waiting_in run).0 (waiting_in run).1)
          (seated_rows (waiting_in run).0 (waiting_in run).1) placed_there
          (seated_level (waiting_in run).0 (waiting_in run).1)
      where
        placed_there :
            (p : Place)
            → (seated_at (waiting_in run).0 (waiting_in run).1 recorded).score p n
              ≡ wants number numbered p
        placed_there p = placed_at (waiting_in run).0 (waiting_in run).1 p
