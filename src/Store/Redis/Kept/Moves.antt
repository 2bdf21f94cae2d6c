-- ===== src/Store/Redis/Kept/Moves.antt =====
-- The commands by which a script of src/queuefy/store/redis.py moves one run from set to set.
use queuefy.Prelude.{
  ℕ, ◌<◌, inl, inr, Bool-cases, ◌≡◌, refl, sym, ap, subst, ◌∙◌, Bool, true, false, List, [], ◌∷◌,
  All, any, none, some, arith, ◌==◌,
}
use queuefy.Prelude.Int.{ℤ, ◌+ℤ◌}
use queuefy.Prelude.Text.{Text}
use queuefy.Prelude.Assoc.{lookup-put}
use queuefy.Run.{Run, Instant}
use queuefy.Store.Memory.Rows.{get}
use queuefy.Store.Contract.History.{get-Below}
use queuefy.Store.Redis.Places.{Place, same_place, stamp, waiting_in}
use queuefy.Store.Redis.Commands.{Keyspace, lists, rescored, rehashed, HasScore, Commands, IsRedis}
use queuefy.Store.Redis.Kept.{
  IsKept, IsMoving, taken_out, staying, rehashed-IsMoving, get-rehashed, seated, forgotten,
}

-- What no script changes of a run.
abbrev pub Stays : Run → Run → Type 0
Stays r r' = (r'.key ≡ r.key) × (r'.queue ≡ r.queue) × (r'.priority ≡ r.priority)

module _ (number : ℤ → ℤ) (b : Keyspace) (i : ℕ) where
  -- One run of the store is changed, and the keys hold all of them as they should.
  pub record IsWritten (r : Run) (k : Keyspace) : Type 0 where
    pub kept : IsKept number k
    pub here : get k.rows i ≡ some r
    pub others : (j : ℕ) → (i == j) ≡ false → get k.rows j ≡ get b.rows j
    pub sequence : k.rows.sequence ≡ b.rows.sequence
    pub scores : (p : Place) (j : ℕ) → (j == i) ≡ false → k.score p j ≡ b.score p j

  -- The same while the run is on its way to a set.
  pub record IsOnWay (home : Place) (r : Run) (k : Keyspace) : Type 0 where
    pub moving : IsMoving number i home k
    pub here : get k.rows i ≡ some r
    pub named : (key : Text) → r.key ≡ some key → k.names key ≡ some (some i)
    pub level : lists r.priority (k.levels r.queue) ≡ true
    pub others : (j : ℕ) → (i == j) ≡ false → get k.rows j ≡ get b.rows j
    pub sequence : k.rows.sequence ≡ b.rows.sequence
    pub scores : (p : Place) (j : ℕ) → (j == i) ≡ false → k.score p j ≡ b.score p j

  pub rehashed-IsOnWay :
      (home : Place) (r r' : Run) (k : Keyspace)
      → IsOnWay home r k
      → Stays r r'
      → IsOnWay home r' (rehashed i r' k)
  unfolding get
  rehashed-IsOnWay home r r' k m stays = record {
    moving = rehashed-IsMoving number i home r' k m.moving;
    here = get-rehashed number i r' r k m.here;
    named = λ key e. m.named key (sym stays.0 ∙ e);
    level = rw (stays.1, stays.2) m.level;
    others = λ j other. ground (arith, lookup-put i j r' k.rows.runs, m.others j other);
    sequence = m.sequence;
    scores = m.scores;
  }

  pub seated-IsWritten :
      (home : Place) (at : Instant) (r : Run) (k : Keyspace)
      → IsOnWay home r k
      → waiting_in r ≡ (home, some at)
      → IsWritten r (rescored home i (some (number (stamp at))) k)
  seated-IsWritten home at r k m belongs = record {
    kept = seated number i home at k r m.moving m.here belongs m.named m.level;
    here = m.here;
    others = m.others;
    sequence = m.sequence;
    scores = λ p j other. elim (Bool-cases (same_place p home)) [
      | inl this ↦ rw (this, other) (m.scores p j other)
      | inr elsewhere ↦ rw elsewhere (m.scores p j other)
    ];
  }

module _ {T : Type 0} (e : Commands T) (law : IsRedis e) (i : ℕ) (t : T) where
  pub zrem-IsOnWay :
      (p home : Place) (r : Run)
      → IsKept e.number (e.look t)
      → get (e.look t).rows i ≡ some r
      → (waiting_in r).0 ≡ p
      → IsOnWay e.number (e.look t) i home r (e.look (e.zrem p i t).0)
  zrem-IsOnWay p home r v here at =
      let f = v.fits i r here in
      let k = e.look t in
      let given : i < k.rows.sequence = get-Below k.rows i r v.numbered.below here in
      subst (IsOnWay e.number k i home r) (sym (law.zrem_look p i t)) (record {
        moving = taken_out e.number p home i k r v here given at;
        here = here;
        named = f.named;
        level = f.level;
        others = λ j other. refl;
        sequence = refl;
        scores = λ q j other. elim (Bool-cases (same_place q p)) [
          | inl this ↦ rw (this, other) refl
          | inr elsewhere ↦ rw elsewhere refl
        ];
      })

  pub stays-IsOnWay :
      (home : Place) (r : Run)
      → IsKept e.number (e.look t)
      → get (e.look t).rows i ≡ some r
      → (waiting_in r).0 ≡ home
      → IsOnWay e.number (e.look t) i home r (e.look t)
  stays-IsOnWay home r v here at =
      let f = v.fits i r here in
      let k = e.look t in
      let given : i < k.rows.sequence = get-Below k.rows i r v.numbered.below here in
      record {
        moving = staying e.number home i k r v here given at;
        here = here;
        named = f.named;
        level = f.level;
        others = λ j other. refl;
        sequence = refl;
        scores = λ p j other. refl;
      }

  module _ (b : Keyspace) (home : Place) (r : Run)
      (m : IsOnWay e.number b i home r (e.look t)) where
    pub hset-IsOnWay :
        (f : Run → Run) → Stays r (f r) → IsOnWay e.number b i home (f r) (e.look (e.hset i f t))
    hset-IsOnWay f stays =
        subst (IsOnWay e.number b i home (f r)) (sym (law.hset_look i f t r m.here))
          (rehashed-IsOnWay e.number b i home r (f r) (e.look t) m stays)

    pub hincrby-IsOnWay :
        (by : ℤ)
        → IsOnWay e.number b i home
            (record r { attempts = r.attempts +ℤ by })
            (e.look (e.hincrby i by t))
    hincrby-IsOnWay by =
        let r' : Run = record r { attempts = r.attempts +ℤ by } in
        subst (IsOnWay e.number b i home r') (sym (law.hincrby_look i by t r m.here))
          (rehashed-IsOnWay e.number b i home r r' (e.look t) m (refl, refl, refl))

    pub zadd-IsWritten :
        (at : Instant)
        → waiting_in r ≡ (home, some at)
        → IsWritten e.number b i r (e.look (e.zadd home (stamp at) i t))
    zadd-IsWritten at belongs =
        subst (IsWritten e.number b i r) (sym (law.zadd_look home (stamp at) i t))
          (seated-IsWritten e.number b i home at r (e.look t) m belongs)

  pub zrem-forgotten :
      (p : Place)
      → IsKept e.number (e.look t)
      → get (e.look t).rows i ≡ none
      → IsKept e.number (e.look (e.zrem p i t).0)
  zrem-forgotten p v gone =
      subst (IsKept e.number) (sym (law.zrem_look p i t)) (forgotten e.number p i (e.look t) v gone)

  pub rows-zrem : (p : Place) → (e.look (e.zrem p i t).0).rows ≡ (e.look t).rows
  rows-zrem p = ap (λ k. k.rows) (law.zrem_look p i t)

  pub rows-zadd : (p : Place) (x : ℤ) → (e.look (e.zadd p x i t)).rows ≡ (e.look t).rows
  rows-zadd p x = ap (λ k. k.rows) (law.zadd_look p x i t)

-- The scores of numbers that a turn does not handle stand.
pub still_scored :
    (test : ℤ → Bool) (p : Place) (i : ℕ) (ids : List ℕ) (k k' : Keyspace)
    → any (λ j. j == i) ids ≡ false
    → ((j : ℕ) → (j == i) ≡ false → k'.score p j ≡ k.score p j)
    → All (λ (j : ℕ). HasScore test (k.score p j)) ids
    → All (λ (j : ℕ). HasScore test (k'.score p j)) ids
still_scored test p i [] k k' once stands left = tt
still_scored test p i (j ∷ ids) k k' once stands (scored, left) = (
  subst (HasScore test) (sym (stands j (ground arith))) scored,
  still_scored test p i ids k k' (ground arith) stands left,
)
