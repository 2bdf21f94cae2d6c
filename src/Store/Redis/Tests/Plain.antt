-- ===== src/Store/Redis/Tests/Plain.antt =====
-- Keys that are their own meaning: the commands that src/queuefy/store/redis.py asks for, run on them.
use queuefy.Prelude.{
  ◌≢◌, ap, ◌∙◌, ==_iff, ◌==◌, ℕ, zero, suc, ◌<◌, ◌≤◌, ◌≡◌, refl, inl, inr, Bool, true, false,
  Option, none, some, List, [], ◌∷◌, arith, ◌==◌, if◌then◌else◌, take, map, any, All, All-take,
  Bool-cases,
}
use queuefy.Prelude.Int.{ℤ, ltb_ℤ, leb_ℤ, ◌+ℤ◌}
use queuefy.Run.{Run}
use queuefy.Store.Memory.Rows.{Entry, get}
use queuefy.Store.Redis.Commands.{
  Keyspace, rescored, rehashed, renamed, counted, hashed, unhashed, levelled, is_free, is_member,
  HasScore, Single, Commands, IsRedis,
}

-- The members under a bound whose score passes a test, with their scores, the last number first.
abbrev member_if : (ℤ → Bool) → ℕ → Option ℤ → List (ℕ × ℤ) → List (ℕ × ℤ)
member_if test n none rest = rest
member_if test n (some x) rest = if test x then (n, x) ∷ rest else rest

abbrev scored : (ℕ → Option ℤ) → (ℤ → Bool) → ℕ → List (ℕ × ℤ)
scored f test zero = []
scored f test (suc n) = member_if test n (f n) (scored f test n)

abbrev ids : List (ℕ × ℤ) → List ℕ
ids l = map (λ (m : ℕ × ℤ). m.0) l

-- `HSET` of a hash that is there; a field of a hash that is not is written to no run.
abbrev changed_row : ℕ → (Run → Run) → Option Run → Keyspace → Keyspace
changed_row i f none k = k
changed_row i f (some r) k = rehashed i (f r) k

module _ (f : ℕ → Option ℤ) (test : ℤ → Bool) where
  abbrev Scores : ℕ × ℤ → Type 0
  Scores m = (f m.0 ≡ some m.1) × (test m.1 ≡ true)

  more_All :
      (n : ℕ) (o : Option ℤ)
      → f n ≡ o
      → All Scores (scored f test n)
      → All Scores (member_if test n o (scored f test n))
  more_All n none here h = h
  more_All n (some x) here h = elim (Bool-cases (test x)) [
    | inl fits ↦ rw fits ((here, fits), h)
    | inr misses ↦ rw misses h
  ]

  scored_All : (n : ℕ) → All Scores (scored f test n)
  scored_All zero = tt
  scored_All (suc n) = more_All n (f n) refl (scored_All n)

  -- Each number is below the one before it.
  abbrev Down : ℕ → List (ℕ × ℤ) → Type 0
  Down n [] = Unit
  Down n (m ∷ rest) = (m.0 < n) × Down m.0 rest

  Down-wider : (n : ℕ) (l : List (ℕ × ℤ)) → Down n l → Down (suc n) l
  Down-wider n [] d = tt
  Down-wider n (m ∷ rest) (below, d) = (omega arith, d)

  more_Down :
      (n : ℕ) (o : Option ℤ)
      → Down n (scored f test n)
      → Down (suc n) (member_if test n o (scored f test n))
  more_Down n none d = Down-wider n (scored f test n) d
  more_Down n (some x) d = elim (Bool-cases (test x)) [
    | inl fits ↦ rw fits (omega arith, d)
    | inr misses ↦ rw misses (Down-wider n (scored f test n) d)
  ]

  scored-Down : (n : ℕ) → Down n (scored f test n)
  scored-Down zero = tt
  scored-Down (suc n) = more_Down n (f n) (scored-Down n)

  Down-take : (k n : ℕ) (l : List (ℕ × ℤ)) → Down n l → Down n (take k l)
  Down-take zero n l d = tt
  Down-take (suc k) n [] d = tt
  Down-take (suc k) n (m ∷ rest) (below, d) = (below, Down-take k m.0 rest d)

  Down-fresh : (n i : ℕ) (l : List (ℕ × ℤ)) → Down n l → n ≤ i → any (λ j. j == i) (ids l) ≡ false
  Down-fresh n i [] d past = refl
  Down-fresh n i (m ∷ rest) (below, d) past = ground (arith, Down-fresh m.0 i rest d (omega arith))

  Down-Single : (n : ℕ) (l : List (ℕ × ℤ)) → Down n l → Single (ids l)
  Down-Single n [] d = tt
  Down-Single n (m ∷ rest) (below, d) =
      (Down-fresh m.0 m.0 rest d (omega arith), Down-Single m.0 rest d)

-- The numbers and the scores of what a set answers.
All_ids :
    (f : ℕ → Option ℤ) (test : ℤ → Bool) (l : List (ℕ × ℤ))
    → All (Scores f test) l
    → All (λ (i : ℕ). HasScore test (f i)) (ids l)
All_ids f test [] h = tt
All_ids f test (m ∷ l) ((here, fits), h) = (rw here fits, All_ids f test l h)

All_first :
    {P Q : ℕ × ℤ → Type 0} (l : List (ℕ × ℤ)) → ((m : ℕ × ℤ) → P m → Q m) → All P l → All Q l
All_first [] f h = tt
All_first (m ∷ l) f h = (f m h.0, All_first l f h.1)

take_some : (k : ℕ) (l : List (ℕ × ℤ)) → 0 < k → l ≢ [] → take k l ≢ []
take_some zero l room some_of = absurd (omega arith)
take_some (suc k) [] room some_of = absurd (some_of refl)
take_some (suc k) (m ∷ l) room some_of = λ e. cc

more_some :
    (test : ℤ → Bool) (n : ℕ) (o : Option ℤ) (l : List (ℕ × ℤ)) → l ≢ [] → member_if test n o l ≢ []
more_some test n none l h = h
more_some test n (some x) l h = elim (Bool-cases (test x)) [
  | inl fits ↦ rw fits (λ e. cc)
  | inr misses ↦ rw misses h
]

scored-some :
    (f : ℕ → Option ℤ) (test : ℤ → Bool) (i : ℕ) (y : ℤ) (n : ℕ)
    → i < n
    → f i ≡ some y
    → test y ≡ true
    → scored f test n ≢ []
scored-some f test i y zero below here fits = absurd (omega arith)
scored-some f test i y (suc n) below here fits = elim (Bool-cases (n == i)) [
  | inl this ↦
      let at_n : f n ≡ some y = ap f ((==_iff n i).0 this) ∙ here in rw at_n (rw fits (λ e. cc))
  | inr other ↦
      more_some test n (f n) (scored f test n) (scored-some f test i y n (ground arith) here fits)
]

abbrev pub plain : Commands Keyspace
plain = record {
  look = λ k. k;
  number = λ x. x;
  zadd = λ place x i k. rescored place i (some x) k;
  zrem = λ place i k. (rescored place i none k, is_member (k.score place i));
  hash = λ i k. get k.rows i;
  hset = λ i f k. changed_row i f (get k.rows i) k;
  hincrby =
      λ i by k. changed_row i (λ r. record r { attempts = r.attempts +ℤ by }) (get k.rows i) k;
  hwrite = λ i r k. hashed i r k;
  del = λ i k. unhashed i k;
  incr = λ k. (counted k, k.rows.sequence);
  reserve = λ key k.
      (if is_free (k.names key) then renamed key (some none) k else k, is_free (k.names key));
  assign = λ key i k. renamed key (some (some i)) k;
  free = λ key k. renamed key none k;
  named = λ key k. k.names key;
  list_level = λ queue level k. levelled queue level k;
  levels_of = λ queue k. k.levels queue;
  due = λ place x limit k. take limit (scored (k.score place) (λ y. leb_ℤ y x) k.rows.sequence);
  short_of =
      λ place x limit k. ids (take limit (scored (k.score place) (λ y. ltb_ℤ y x) k.rows.sequence));
  scan = λ k. map (λ (x : Entry). x.0) k.rows.runs;
}

pub plain-IsRedis : IsRedis plain
plain-IsRedis = record {
  number_mono = λ a b h. h;
  zadd_look = λ place x i k. refl;
  zrem_look = λ place i k. refl;
  zrem_told = λ place i k. refl;
  hash_row = λ i k. refl;
  hset_look = λ i f k r here. rw here refl;
  hincrby_look = λ i by k r here. rw here refl;
  hwrite_look = λ i r k free. refl;
  del_look = λ i k. refl;
  incr_look = λ k. refl;
  incr_told = λ k. refl;
  reserve_told = λ key k. refl;
  reserve_look = λ key k. refl;
  assign_look = λ key i k. refl;
  free_look = λ key k. refl;
  named_told = λ key k. refl;
  list_level_look = λ queue level k. refl;
  due_score = λ place x limit k.
      All_first (take limit (scored (k.score place) (λ y. leb_ℤ y x) k.rows.sequence)) (λ m h. h.0)
        (All-take _ limit _ (scored_All (k.score place) (λ y. leb_ℤ y x) k.rows.sequence));
  levels_told = λ queue level k h. h;
  due_some = λ place x y limit i k given here in_time room.
      take_some limit (scored (k.score place) (λ z. leb_ℤ z x) k.rows.sequence) room
        (scored-some (k.score place) (λ z. leb_ℤ z x) i y k.rows.sequence given here in_time);
  due_by = λ place x limit k.
      All_first (take limit (scored (k.score place) (λ y. leb_ℤ y x) k.rows.sequence)) (λ m h. h.1)
        (All-take _ limit _ (scored_All (k.score place) (λ y. leb_ℤ y x) k.rows.sequence));
  short_of_score = λ place x limit k.
      All_ids (k.score place) (λ y. ltb_ℤ y x) _
        (All-take _ limit _ (scored_All (k.score place) (λ y. ltb_ℤ y x) k.rows.sequence));
  short_of_single = λ place x limit k.
      Down-Single (k.score place) (λ y. ltb_ℤ y x) k.rows.sequence _
        (Down-take (k.score place) (λ y. ltb_ℤ y x) limit k.rows.sequence _
          (scored-Down (k.score place) (λ y. ltb_ℤ y x) k.rows.sequence));
}
