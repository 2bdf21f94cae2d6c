-- ===== src/Store/Redis/Sweeping/Rows.antt =====
-- What RECLAIM of src/queuefy/store/redis.py does to each run: nothing, or what a reclaim means.
use queuefy.Prelude.{
  ℕ, ◌≤◌, ◌≡◌, refl, sym, ap, subst, ◌∙◌, inl, inr, Bool, true, false, none, some, Option, List, [],
  ◌∷◌, arith, ltb, ◌==◌, Bool-cases, Option-cases, All,
}
use queuefy.Prelude.Int.{ℤ, ltb_ℤ}
use queuefy.Run.{
  Run, Instant, RunStatus, running, pending, done, failed, canceled, same_status, exhausted,
}
use queuefy.Store.Base.{reclaim_batch}
use queuefy.Store.Memory.Rows.{MemoryStore, get}
use queuefy.Store.Memory.Sweeping.{expired, taken_back}
use queuefy.Store.Memory.Life.{Row, same, changes, lapsed, reclaims, frees}
use queuefy.Store.Contract.Underway.{IsUnderway, begun, one_more}
use queuefy.Store.Redis.Places.{
  Place, lane, leased, settled, same_place, stamp, stamp_mono, waiting_in,
}
use queuefy.Store.Redis.Commands.{Commands, IsRedis, HasScore, Single}
use queuefy.Store.Redis.Kept.{IsKept, wants, score_of}
use queuefy.Store.Redis.Kept.Moves.{
  IsWritten, zrem-IsOnWay, hset-IsOnWay, zadd-IsWritten, zrem-forgotten, rows-zrem, still_scored,
}
use queuefy.Store.Redis.Writing.Alike.{running_leased}
use queuefy.Store.Redis.Sweeping.{
  giving_up, putting_back, lapse, take_back, take_back_each, reclaim, seat_back, lapse_if,
}

-- A score below another is of an earlier instant.
score_earlier :
    {T : Type 0} (e : Commands T) (law : IsRedis e) (a b : Instant)
    → ltb_ℤ (e.number (stamp a)) (e.number (stamp b)) ≡ true
    → ltb a b ≡ true
score_earlier e law a b below = elim (Bool-cases (ltb a b)) [
  | inl before ↦ before
  | inr past ↦
      let later : b ≤ a = ground arith in
      let mono = law.number_mono (stamp b) (stamp a) (stamp_mono b a later) in absurd (ground arith)
]

-- A run with a score among the leases runs, and its score is of its lease.
leased_run :
    (number : ℤ → ℤ) (test : ℤ → Bool) (r : Run)
    → HasScore test (wants number r leased)
    → (same_status r.status running ≡ true)
      × ((at : Instant) × (r.lease_until ≡ some at) × (test (number (stamp at)) ≡ true))
unfolding waiting_in same_status
leased_run number test r h = by_status r.status refl
  where
    by_lease :
        (o : Option Instant)
        → HasScore test (score_of number o)
        → (at : Instant) × (o ≡ some at) × (test (number (stamp at)) ≡ true)
    by_lease none h' = absurd h'
    by_lease (some at) h' = (at, refl, h')

    by_status :
        (s : RunStatus)
        → r.status ≡ s
        → (same_status r.status running ≡ true)
          × ((at : Instant) × (r.lease_until ≡ some at) × (test (number (stamp at)) ≡ true))
    by_status running e = (rw e refl, by_lease r.lease_until (rw (e, waiting_in) at h))
    by_status pending e = absurd (rw (e, waiting_in) at h)
    by_status done e = absurd (rw (e, waiting_in) at h)
    by_status failed e = absurd (rw (e, waiting_in) at h)
    by_status canceled e = absurd (rw (e, waiting_in) at h)

module _ {T : Type 0} (e : Commands T) (law : IsRedis e) (moment : Instant) where
  -- The numbers are still among the leases, and their leases ran out.
  abbrev pub RanOut : List ℕ → T → Type 0
  RanOut ids t =
      All (λ (i : ℕ). HasScore (λ y. ltb_ℤ y (e.number (stamp moment))) ((e.look t).score leased i))
        ids

  ran_out :
      (t : T) (i : ℕ) (r : Run)
      → IsKept e.number (e.look t)
      → get (e.look t).rows i ≡ some r
      → HasScore (λ y. ltb_ℤ y (e.number (stamp moment))) ((e.look t).score leased i)
      → expired moment r ≡ true
  unfolding expired
  ran_out t i r v here scored =
      let test : ℤ → Bool = λ y. ltb_ℤ y (e.number (stamp moment)) in
      let (runs, (at, lease, below)) =
        leased_run e.number test r
          (subst (HasScore test) ((v.fits i r here).placed leased) scored) in
      rw (runs, lease) (score_earlier e law at moment below)

  -- Where a run goes that is taken back.
  lapse-IsWritten :
      (t : T) (i : ℕ) (r : Run)
      → IsKept e.number (e.look t)
      → get (e.look t).rows i ≡ some r
      → same_status r.status running ≡ true
      → IsWritten e.number
          (e.look t)
          i
          (taken_back moment r)
          (e.look (lapse e moment i r (e.zrem leased i t).0))
  unfolding lapse taken_back waiting_in exhausted
  lapse-IsWritten t i r v here runs =
      let t1 = (e.zrem leased i t).0 in
      let k = e.look t in
      let home = lane r.queue r.priority in
      let start =
        λ (p : Place). zrem-IsOnWay e law i t leased p r v here (running_leased e law i t r runs) in
      elim (Bool-cases (exhausted r)) [
        | inl spent ↦
            let m =
              hset-IsOnWay e law i t1 k settled r (start settled) (giving_up moment)
                (refl, refl, refl) in
            rw spent (
              zadd-IsWritten e law i (e.hset i (giving_up moment) t1) k settled (giving_up moment r)
                m moment refl)
        | inr left ↦
            let t2 = e.hset i (putting_back moment) t1 in
            let m =
              hset-IsOnWay e law i t1 k home r (start home) (putting_back moment)
                (refl, refl, refl) in
            let seat : seat_back e moment i (e.hash i t2) t2 ≡ e.zadd home (stamp moment) i t2 =
              ap (λ o. seat_back e moment i o t2) (law.hash_row i t2 ∙ m.here) in
            rw left (
              subst (λ t'. IsWritten e.number k i (putting_back moment r) (e.look t')) (sym seat)
                (zadd-IsWritten e law i t2 k home (putting_back moment r) m moment refl))
      ]

  taken_back_once :
      (r : Run) → expired moment r ≡ true → expired moment (taken_back moment r) ≡ false
  unfolding expired taken_back same_status exhausted
  taken_back_once r h = ground arith

  -- What one turn leaves of the store it began with: the scores of other numbers are as they were.
  record IsTurned (s : MemoryStore) (i : ℕ) (t t' : T) : Type 0 where
    kept : IsKept e.number (e.look t')
    underway : IsUnderway (expired moment) (taken_back moment) s (e.look t').rows
    elsewhere :
        (p : Place) (j : ℕ) → (j == i) ≡ false → (e.look t').score p j ≡ (e.look t).score p j

  module _ (s : MemoryStore) (i : ℕ) (t : T) (v : IsKept e.number (e.look t))
      (u : IsUnderway (expired moment) (taken_back moment) s (e.look t).rows) where
    abbrev t1 : T
    t1 = (e.zrem leased i t).0

    read : e.hash i t1 ≡ get (e.look t).rows i
    read = law.hash_row i t1 ∙ ap (λ rows. get rows i) (rows-zrem e law i t leased)

    turn_gone : get (e.look t).rows i ≡ none → IsTurned s i t t1
    turn_gone gone = record {
      kept = zrem-forgotten e law i t leased v gone;
      underway =
          subst (IsUnderway (expired moment) (taken_back moment) s)
            (sym (rows-zrem e law i t leased)) u;
      elsewhere = λ p j other.
          ap (λ k. k.score p j) (law.zrem_look leased i t)
          ∙ elim (Bool-cases (same_place p leased)) [
            | inl this ↦ rw (this, other) refl
            | inr elsewhere ↦ rw elsewhere refl
          ];
    }

    turn_lapse :
        (r : Run)
        → get (e.look t).rows i ≡ some r
        → RanOut (i ∷ []) t
        → IsTurned s i t (lapse e moment i r t1)
    unfolding expired
    turn_lapse r here left =
        let over = ran_out t i r v here left.0 in
        let w = lapse-IsWritten t i r v here (ground arith) in
        record {
          kept = w.kept;
          underway =
              one_more (expired moment) (taken_back moment) s (e.look t).rows
                (e.look (lapse e moment i r t1)).rows i r taken_back_once u here over
                w.kept.numbered w.sequence w.here w.others;
          elsewhere = w.scores;
        }

    take_back-IsTurned : RanOut (i ∷ []) t → IsTurned s i t (take_back e moment i t)
    unfolding take_back
    take_back-IsTurned left = elim (Option-cases (get (e.look t).rows i)) [
      | inl gone ↦
          subst (λ o. IsTurned s i t (lapse_if e moment i o t1)) (sym (read ∙ gone))
            (turn_gone gone)
      | inr (r, here) ↦
          subst (λ o. IsTurned s i t (lapse_if e moment i o t1)) (sym (read ∙ here))
            (turn_lapse r here left)
    ]

  take_back_each-IsUnderway :
      (s : MemoryStore) (ids : List ℕ) (t : T)
      → IsKept e.number (e.look t)
      → IsUnderway (expired moment) (taken_back moment) s (e.look t).rows
      → RanOut ids t
      → Single ids
      → IsKept e.number (e.look (take_back_each e moment ids t))
        × IsUnderway
            (expired moment)
            (taken_back moment)
            s
            (e.look (take_back_each e moment ids t)).rows
  unfolding take_back_each
  take_back_each-IsUnderway s [] t v u left single = (v, u)
  take_back_each-IsUnderway s (i ∷ ids) t v u (scored, left) (once, single) =
      let w = take_back-IsTurned s i t v u (scored, tt) in
      let t' = take_back e moment i t in
      take_back_each-IsUnderway s ids t' w.kept w.underway
        (still_scored (λ y. ltb_ℤ y (e.number (stamp moment))) leased i ids (e.look t) (e.look t')
          once (w.elsewhere leased) left)
        single

  module _ (t : T) (v : IsKept e.number (e.look t)) where
    pub reclaim-IsUnderway :
        IsKept e.number (e.look (reclaim e moment t).0)
        × IsUnderway
            (expired moment)
            (taken_back moment)
            (e.look t).rows
            (e.look (reclaim e moment t).0).rows
    unfolding reclaim
    reclaim-IsUnderway =
        take_back_each-IsUnderway (e.look t).rows (e.short_of leased (stamp moment) reclaim_batch t)
          t v (begun (expired moment) (taken_back moment) (e.look t).rows v.numbered)
          (law.short_of_score leased (stamp moment) reclaim_batch t)
          (law.short_of_single leased (stamp moment) reclaim_batch t)

    pub reclaim-Row :
        (i : ℕ)
        → Row (e.look t).rows (reclaims moment) i (get (e.look (reclaim e moment t).0).rows i)
    unfolding frees
    reclaim-Row i = elim (reclaim-IsUnderway.1.rows i) [
      | inl as_was ↦ same as_was
      | inr (r, here, over, this) ↦
          changes r (taken_back moment r) here this (lapsed moment over refl) (λ back. over)
    ]
