-- ===== src/Store/Redis/Writing/Alike.antt =====
-- What the scripts of one run leave behind, against what the memory store makes of the same call.
use queuefy.Prelude.{
  ℕ, ◌≡◌, ◌≢◌, refl, sym, subst, ◌∙◌, inl, inr, Bool, true, false, ◌&&◌, none, some, Option, [],
  ◌∷◌, arith, ◌==◌, if◌then◌else◌, Bool-cases, Option-cases, ==_iff, ==_refl,
}
use queuefy.Prelude.Int.{ℤ, ◌+ℤ◌, ◌==ℤ◌}
use queuefy.Prelude.Text.{Text, is_some_eq, ◌==◌ as text_eq}
use queuefy.Prelude.Assoc.{lookup-put, put}
use queuefy.Run.{Run, Instant, running, same_status, same_status_lem}
use queuefy.Store.Memory.Rows.{MemoryStore, get}
use queuefy.Store.Memory.Holding.{holds, held, on_held}
use queuefy.Store.Memory.Holding.Exact.{on_held_cases}
use queuefy.Store.Redis.Places.{Place, lane, leased, settled, stamp, text_of, waiting_in}
use queuefy.Store.Redis.Commands.{Commands, IsRedis}
use queuefy.Store.Redis.Kept.{IsKept}
use queuefy.Store.Redis.Kept.Moves.{
  Stays, IsOnWay, IsWritten, zrem-IsOnWay, hset-IsOnWay, hincrby-IsOnWay, zadd-IsWritten,
}
use queuefy.Store.Redis.Writing.{held_by, if_held, settle_run, seat_again}

-- The keys hold the runs that the memory store is left with, each where it belongs, and the answers
-- are one.
pub record IsAlike {T A : Type 0} (e : Commands T) (memory : MemoryStore × A) (x : T × A)
    : Type 0 where
  pub kept : IsKept e.number (e.look x.0)
  pub rows : (j : ℕ) → get (e.look x.0).rows j ≡ get memory.0 j
  pub sequence : (e.look x.0).rows.sequence ≡ memory.0.sequence
  pub answer : x.1 ≡ memory.1

held_by-holds :
    (worker : Text) (attempt : ℤ) (run : Run)
    → worker ≢ []
    → held_by worker attempt run ≡ holds run worker attempt
unfolding holds text_eq
held_by-holds worker attempt run plain = by_worker run.worker worker plain
  where
    by_worker :
        (w : Option Text) (v : Text)
        → v ≢ []
        → text_eq (text_of w) v && (same_status run.status running && run.attempts ==ℤ attempt)
          ≡ is_some_eq w v && (same_status run.status running && run.attempts ==ℤ attempt)
    by_worker none [] p = absurd (p refl)
    by_worker none (c ∷ v) p = refl
    by_worker (some w) v p = refl

-- What SETTLE does to a run that the attempt holds, up to the set that the run goes to.
module _ {T : Type 0} (e : Commands T) (law : IsRedis e) (i : ℕ) (t : T) (r : Run) where
  -- The run that is left, and where it stands.
  abbrev Left : Place → Run → T → Type 0
  Left home r' t' = IsOnWay e.number (e.look t) i home r' (e.look t')

  seat_again-closed :
      (at : Instant) (r' : Run) (t' : T)
      → e.hash i t' ≡ some r'
      → r'.finished_at ≡ some at
      → seat_again e i none t' ≡ e.zadd settled (stamp at) i t'
  seat_again-closed at r' t' read ended = rw (read, ended) refl

  seat_again-requeued :
      (at : Instant) (r' : Run) (t' : T)
      → e.hash i t' ≡ some r'
      → seat_again e i (some at) t' ≡ e.zadd (lane r'.queue r'.priority) (stamp at) i t'
  seat_again-requeued at r' t' read = rw read refl

  pub running_leased : same_status r.status running ≡ true → (waiting_in r).0 ≡ leased
  unfolding waiting_in
  running_leased runs = rw (same_status_lem r.status running runs) refl

  module _ (f : Run → Run) (counted : ℤ) (stays : Stays r (f r)) (v : IsKept e.number (e.look t))
      (here : get (e.look t).rows i ≡ some r) (runs : same_status r.status running ≡ true) where
    abbrev pub left_with : Run
    left_with = record (f r) { attempts = (f r).attempts +ℤ counted }

    abbrev pub written : T
    written = e.hincrby i counted (e.hset i f (e.zrem leased i t).0)

    written-IsOnWay : (home : Place) → Left home left_with written
    written-IsOnWay home =
        let t1 = (e.zrem leased i t).0 in
        let m1 = zrem-IsOnWay e law i t leased home r v here (running_leased runs) in
        let m2 = hset-IsOnWay e law i t1 (e.look t) home r m1 f stays in
        hincrby-IsOnWay e law i (e.hset i f t1) (e.look t) home (f r) m2 counted

    pub settle_closed :
        (at : Instant)
        → left_with.finished_at ≡ some at
        → waiting_in left_with ≡ (settled, some at)
        → IsWritten e.number (e.look t) i left_with (e.look (settle_run e f none counted i t))
    settle_closed at ended belongs =
        let m = written-IsOnWay settled in
        let read : e.hash i written ≡ some left_with = law.hash_row i written ∙ m.here in
        subst (λ t'. IsWritten e.number (e.look t) i left_with (e.look t'))
          (sym (seat_again-closed at left_with written read ended))
          (zadd-IsWritten e law i written (e.look t) settled left_with m at belongs)

    pub settle_requeued :
        (at : Instant)
        → waiting_in left_with ≡ (lane left_with.queue left_with.priority, some at)
        → IsWritten e.number (e.look t) i left_with (e.look (settle_run e f (some at) counted i t))
    settle_requeued at belongs =
        let home = lane left_with.queue left_with.priority in
        let m = written-IsOnWay home in
        let read : e.hash i written ≡ some left_with = law.hash_row i written ∙ m.here in
        subst (λ t'. IsWritten e.number (e.look t) i left_with (e.look t'))
          (sym (seat_again-requeued at left_with written read))
          (zadd-IsWritten e law i written (e.look t) home left_with m at belongs)

module _ {T : Type 0} (e : Commands T) (law : IsRedis e) (i : ℕ) (t : T) where
  pub unchanged :
      (x : MemoryStore × Bool)
      → IsKept e.number (e.look t)
      → x ≡ ((e.look t).rows, false)
      → IsAlike e x (t, false)
  unchanged x v as_was =
      subst (λ y. IsAlike e y (t, false)) (sym as_was)
        (record { kept = v; rows = λ j. refl; sequence = refl; answer = refl })

  pub changed_one :
      (r r' : Run) (t' : T) (x : MemoryStore × Bool)
      → get (e.look t).rows i ≡ some r
      → IsWritten e.number (e.look t) i r' (e.look t')
      → x ≡ (record (e.look t).rows { runs = put i r' (e.look t).rows.runs }, true)
      → IsAlike e x (t', true)
  unfolding get
  changed_one r r' t' x here w put_there =
      subst (λ y. IsAlike e y (t', true)) (sym put_there)
        (record {
          kept = w.kept;
          rows = λ j. elim (Bool-cases (i == j)) [
            | inl this ↦
                let same : i ≡ j = (==_iff i j).0 this in
                rw (← same) (
                  w.here ∙ sym (lookup-put i i r' (e.look t).rows.runs ∙ rw (==_refl i, here) refl))
            | inr other ↦
                w.others j other ∙ sym (lookup-put i j r' (e.look t).rows.runs ∙ rw other refl)
          ];
          sequence = w.sequence;
          answer = refl;
        })

  -- The answer to an attempt that does not hold the run, and to one that does.
  held_answer :
      (worker : Text) (attempt : ℤ) (r : Run) (t' : T)
      → e.hash i t ≡ some r
      → held_by worker attempt r ≡ true
      → if_held e worker attempt (e.hash i t) t' t ≡ (t', true)
  held_answer worker attempt r t' there holding = rw there (rw holding refl)

  refused_answer :
      (worker : Text) (attempt : ℤ) (t' : T)
      → worker ≢ []
      → held (e.look t).rows i worker attempt ≡ none
      → if_held e worker attempt (e.hash i t) t' t ≡ (t, false)
  unfolding held
  refused_answer worker attempt t' plain absent = elim (Option-cases (get (e.look t).rows i)) [
    | inl gone ↦ rw (law.hash_row i t ∙ gone) refl
    | inr (r, here) ↦
        let refused : held_by worker attempt r ≡ false =
          held_by-holds worker attempt r plain ∙ not_holding r (rw (here, held) at absent) in
        rw (law.hash_row i t ∙ here) (rw refused refl)
  ]
    where
      not_holding :
          (r : Run)
          → (if holds r worker attempt then some r else none) ≡ none
          → holds r worker attempt ≡ false
      not_holding r h = ground arith

  pub if_held-IsAlike :
      (g : Run → Run) (worker : Text) (attempt : ℤ) (t' : T)
      → worker ≢ []
      → IsKept e.number (e.look t)
      → ((r : Run)
          → get (e.look t).rows i ≡ some r
          → same_status r.status running ≡ true
          → IsWritten e.number (e.look t) i (g r) (e.look t'))
      → IsAlike e
          (on_held g (e.look t).rows i worker attempt)
          (if_held e worker attempt (e.hash i t) t' t)
  unfolding holds held
  if_held-IsAlike g worker attempt t' plain v moved =
      elim (on_held_cases g (e.look t).rows i worker attempt) [
        | inl (r, (here, holding), put_there) ↦
            let there : e.hash i t ≡ some r = law.hash_row i t ∙ here in
            let w = moved r here (ground arith) in
            let held_here : held_by worker attempt r ≡ true =
              held_by-holds worker attempt r plain ∙ holding in
            subst (IsAlike e (on_held g (e.look t).rows i worker attempt))
              (sym (held_answer worker attempt r t' there held_here))
              (changed_one r (g r) t' (on_held g (e.look t).rows i worker attempt) here w put_there)
        | inr (absent, as_was) ↦
            subst (IsAlike e (on_held g (e.look t).rows i worker attempt))
              (sym (refused_answer worker attempt t' plain absent))
              (unchanged (on_held g (e.look t).rows i worker attempt) v as_was)
      ]
