-- ===== src/Store/Redis/Claiming/Rows.antt =====
-- What CLAIM of src/queuefy/store/redis.py does to each run, and what it answers.
use queuefy.Prelude.{
  ℕ, ◌+◌, ◌≤◌, ◌<◌, ◌≡◌, ◌≢◌, refl, sym, ap, subst, ◌∙◌, inl, inr, Bool, true, false, none, some,
  List, [], ◌∷◌, ◌++◌, arith, ◌==◌, if◌then◌else◌, length, Bool-cases, any, ◌||◌, length-append,
  ==_iff,
}
use mathlib.Core.Option.{some-injective}
use queuefy.Prelude.Int.{ℤ, pos, ◌+ℤ◌}
use queuefy.Prelude.Text.{Text}
use queuefy.Run.{Run, Instant, RunStatus, running, pending, done, failed, canceled, same_status}
use queuefy.Store.Memory.Rows.{MemoryStore, get}
use queuefy.Store.Memory.Claiming.{started}
use queuefy.Store.Contract.Underway.{IsUnderway, one_more}
use queuefy.Store.Redis.Places.{
  Place, lane, leased, same_place, same_place_lem, stamp, field, waiting_in,
}
use queuefy.Store.Redis.Commands.{Keyspace, Commands, IsRedis, is_member}
use queuefy.Store.Redis.Kept.{IsKept, wants, score_of}
use queuefy.Store.Redis.Kept.Moves.{
  IsWritten, zrem-IsOnWay, hset-IsOnWay, hincrby-IsOnWay, zadd-IsWritten,
}
use queuefy.Store.Redis.Claiming.{taking, with_run, begin}

-- A run with a score in a lane waits there.
pub lane_run :
    (number : ℤ → ℤ) (queue : Text) (level : ℤ) (r : Run)
    → is_member (wants number r (lane queue level)) ≡ true
    → (same_status r.status pending ≡ true) × ((waiting_in r).0 ≡ lane queue level)
unfolding waiting_in same_status
lane_run number queue level r h = by_status r.status refl
  where
    in_lane :
        (p : Place)
        → is_member
            (if same_place (lane queue level) p then score_of number (waiting_in r).1 else none)
          ≡ true
        → p ≡ lane queue level
    in_lane p h' = elim (Bool-cases (same_place (lane queue level) p)) [
      | inl this ↦ sym (same_place_lem (lane queue level) p this)
      | inr other ↦ let never : false ≡ true = rw other at h' in absurd (cc)
    ]

    by_status :
        (s : RunStatus)
        → r.status ≡ s
        → (same_status r.status pending ≡ true) × ((waiting_in r).0 ≡ lane queue level)
    by_status pending e = (rw e refl, in_lane (waiting_in r).0 h)
    by_status running e = let never : false ≡ true = rw (e, waiting_in) at h in absurd (cc)
    by_status done e = let never : false ≡ true = rw (e, waiting_in) at h in absurd (cc)
    by_status failed e = let never : false ≡ true = rw (e, waiting_in) at h in absurd (cc)
    by_status canceled e = let never : false ≡ true = rw (e, waiting_in) at h in absurd (cc)

abbrev pub waits : Run → Bool
waits r = same_status r.status pending

abbrev pub listed : ℕ → List ℕ → Bool
listed i ids = any (λ j. j == i) ids

-- No number stands twice in the list.
abbrev pub Single : List ℕ → Type 0
Single [] = Unit
Single (i ∷ ids) = (listed i ids ≡ false) × Single ids

listed-snoc : (i j : ℕ) (ids : List ℕ) → listed i (ids ++ j ∷ []) ≡ listed i ids || (j == i)
listed-snoc i j [] = ground arith
listed-snoc i j (x ∷ ids) = ground (arith, listed-snoc i j ids)

Single-snoc : (ids : List ℕ) (j : ℕ) → Single ids → listed j ids ≡ false → Single (ids ++ j ∷ [])
Single-snoc [] j d new = (refl, tt)
Single-snoc (i ∷ ids) j (d, later) new =
    (ground (arith, listed-snoc i j ids), Single-snoc ids j later (ground arith))

module _ {T : Type 0} (e : Commands T) (law : IsRedis e) (worker : Text) (lease : ℕ)
    (moment : Instant) (plain : worker ≢ []) where
  abbrev pub start : Run → Run
  start r = started worker lease moment r

  field_worker : field worker ≡ some worker
  field_worker = of_text worker plain
    where
      of_text : (t : Text) → t ≢ [] → field t ≡ some t
      of_text [] p = absurd (p refl)
      of_text (c ∷ t) p = refl

  pub start_once : (r : Run) → waits r ≡ true → waits (start r) ≡ false
  unfolding started same_status
  start_once r h = refl

  -- A run that the claim answers with: the one that stood under the number, and waited, as the claim
  -- wrote it.
  abbrev pub Claimed : MemoryStore → MemoryStore → ℕ → Run → Type 0
  Claimed s s' i r =
      (a : Run) × (get s i ≡ some a) × (waits a ≡ true) × (r ≡ start a) × (get s' i ≡ some r)

  -- The answers, each under its number.
  abbrev pub AllClaimed : MemoryStore → MemoryStore → List ℕ → List Run → Type 0
  AllClaimed s s' [] [] = Unit
  AllClaimed s s' (i ∷ ids) (r ∷ taken) = Claimed s s' i r × AllClaimed s s' ids taken
  AllClaimed s s' _ _ = ⊥

  -- How far a claim has come from a store: it answers with one run for each of these numbers, and the
  -- row of any other number is as it was.
  pub record IsClaiming (s : MemoryStore) (wanted : ℕ) (taken : List Run) (k : Keyspace)
      : Type 0 where
    pub kept : IsKept e.number k
    pub underway : IsUnderway waits start s k.rows
    pub ids : List ℕ
    pub single : Single ids
    pub answers : AllClaimed s k.rows ids taken
    pub unclaimed : (i : ℕ) → listed i ids ≡ false → get k.rows i ≡ get s i
    pub within : length taken ≤ wanted

  -- What is written of a run that was in its lane, and the read of it.
  pub begin-IsWritten :
      (i : ℕ) (p : Place) (r : Run) (t : T)
      → IsKept e.number (e.look t)
      → get (e.look t).rows i ≡ some r
      → (waiting_in r).0 ≡ p
      → (taken : List Run)
      → IsWritten e.number
          (e.look t)
          i
          (start r)
          (e.look (begin e worker lease moment i taken (e.zrem p i t).0).0)
        × ((begin e worker lease moment i taken (e.zrem p i t).0).1 ≡ taken ++ start r ∷ [])
  unfolding begin started waiting_in
  begin-IsWritten i p r t v here home taken =
      let k = e.look t in
      let until = moment + lease in
      let f = taking worker moment until in
      let t1 = (e.zrem p i t).0 in
      let t2 = e.hset i f t1 in
      let t3 = e.hincrby i (pos 1) t2 in
      let t4 = e.zadd leased (stamp until) i t3 in
      let m1 = zrem-IsOnWay e law i t p leased r v here home in
      let m2 = hset-IsOnWay e law i t1 k leased r m1 f (refl, refl, refl) in
      let m3 = hincrby-IsOnWay e law i t2 k leased (f r) m2 (pos 1) in
      let r' : Run = record (f r) { attempts = r.attempts +ℤ pos 1 } in
      let w = zadd-IsWritten e law i t3 k leased r' m3 until refl in
      let this : r' ≡ start r = ap (λ w. record r' { worker = w }) field_worker in
      (
        subst (λ x. IsWritten e.number k i x (e.look t4)) this w,
        ap (with_run taken) (law.hash_row i t4 ∙ w.here ∙ ap some this),
      )

  module _ (s : MemoryStore) (wanted : ℕ) where
    -- Nothing but a lane has changed.
    pub untaken :
        (taken : List Run) (k k' : Keyspace)
        → IsClaiming s wanted taken k
        → IsKept e.number k'
        → k'.rows ≡ k.rows
        → IsClaiming s wanted taken k'
    untaken taken k k' u v rows = record {
      kept = v;
      underway = subst (IsUnderway waits start s) (sym rows) u.underway;
      ids = u.ids;
      single = u.single;
      answers = subst (λ x. AllClaimed s x u.ids taken) (sym rows) u.answers;
      unclaimed =
          subst (λ x. (i : ℕ) → listed i u.ids ≡ false → get x i ≡ get s i) (sym rows) u.unclaimed;
      within = u.within;
    }

    -- What was answered does not wait any more.
    Claimed-out :
        (k : Keyspace) (i j : ℕ) (r x : Run)
        → get k.rows i ≡ some r
        → waits r ≡ true
        → Claimed s k.rows j x
        → (j == i) ≡ false
    unfolding started same_status
    Claimed-out k i j r x here waiting (a, was, waited, this, now) = elim (Bool-cases (j == i)) [
      | inl one ↦
          let there : some r ≡ some x = sym here ∙ (rw (← (==_iff j i).0 one) now) in
          let never : waits (start a) ≡ true = rw (some-injective r x there ∙ this) at waiting in
          absurd (cc)
      | inr other ↦ other
    ]

    not_listed :
        (k : Keyspace) (i : ℕ) (r : Run) (ids : List ℕ) (taken : List Run)
        → get k.rows i ≡ some r
        → waits r ≡ true
        → AllClaimed s k.rows ids taken
        → listed i ids ≡ false
    not_listed k i r [] [] here waiting h = refl
    not_listed k i r [] (x ∷ taken) here waiting h = absurd h
    not_listed k i r (j ∷ ids) [] here waiting h = absurd h
    not_listed k i r (j ∷ ids) (x ∷ taken) here waiting (c, h) =
        let out = Claimed-out k i j r x here waiting c in
        let later = not_listed k i r ids taken here waiting h in ground arith

    -- One more answer, while what was answered stands.
    one_answered :
        (k k' : Keyspace) (i : ℕ) (r : Run) (ids : List ℕ) (taken : List Run)
        → listed i ids ≡ false
        → ((j : ℕ) → (i == j) ≡ false → get k'.rows j ≡ get k.rows j)
        → Claimed s k'.rows i r
        → AllClaimed s k.rows ids taken
        → AllClaimed s k'.rows (ids ++ i ∷ []) (taken ++ r ∷ [])
    one_answered k k' i r [] [] new others c h = (c, tt)
    one_answered k k' i r [] (x ∷ taken) new others c h = absurd h
    one_answered k k' i r (j ∷ ids) [] new others c h = absurd h
    one_answered k k' i r (j ∷ ids) (x ∷ taken) new others c ((a, was, waited, this, now), h) = (
      (a, was, waited, this, others j (ground arith) ∙ now),
      one_answered k k' i r ids taken (ground arith) others c h,
    )

    -- A run that waits was not claimed yet: it is as it was.
    claimed_was :
        (taken : List Run) (i : ℕ) (r : Run) (k : Keyspace)
        → IsClaiming s wanted taken k
        → get k.rows i ≡ some r
        → waits r ≡ true
        → get s i ≡ some r
    claimed_was taken i r k u here waiting = elim (u.underway.rows i) [
      | inl as_was ↦ sym as_was ∙ here
      | inr (a, was, may, this) ↦
          let there : start a ≡ r = some-injective (start a) r (sym this ∙ here) in
          let never : false ≡ true = sym (start_once a may) ∙ rw there waiting in absurd (cc)
    ]

    pub take_run :
        (i : ℕ) (p : Place) (r : Run) (t : T) (taken : List Run)
        → IsClaiming s wanted taken (e.look t)
        → length taken < wanted
        → get (e.look t).rows i ≡ some r
        → waits r ≡ true
        → (waiting_in r).0 ≡ p
        → IsClaiming s wanted
            (begin e worker lease moment i taken (e.zrem p i t).0).1
            (e.look (begin e worker lease moment i taken (e.zrem p i t).0).0)
    take_run i p r t taken u room here waiting home =
        let k = e.look t in
        let x = begin e worker lease moment i taken (e.zrem p i t).0 in
        let (w, answered) = begin-IsWritten i p r t u.kept here home taken in
        let was = claimed_was taken i r k u here waiting in
        let new = not_listed k i r u.ids taken here waiting u.answers in
        subst (λ l. IsClaiming s wanted l (e.look x.0)) (sym answered)
          (record {
            kept = w.kept;
            underway =
                one_more waits start s k.rows (e.look x.0).rows i r start_once u.underway here
                  waiting w.kept.numbered w.sequence w.here w.others;
            ids = u.ids ++ i ∷ [];
            single = Single-snoc u.ids i u.single new;
            answers =
                one_answered k (e.look x.0) i (start r) u.ids taken new w.others
                  (r, was, waiting, refl, w.here) u.answers;
            unclaimed = λ j out.
                let apart : (i == j) ≡ false = ground (arith, listed-snoc j i u.ids) in
                let before : listed j u.ids ≡ false = ground (arith, listed-snoc j i u.ids) in
                w.others j apart ∙ u.unclaimed j before;
            within = omega (arith, length-append taken (start r ∷ []));
          })
