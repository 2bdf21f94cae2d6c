-- ===== src/Store/Redis/Writing/Calls.antt =====
-- The methods of one run in src/queuefy/store/redis.py, against those of the memory store.
use queuefy.Prelude.{
  ℕ, ◌+◌, ◌≡◌, ◌≢◌, refl, sym, ap, subst, ◌∙◌, inl, inr, Bool, true, false, none, some, Option, [],
  ◌∷◌, arith, Option-cases, Bool-cases,
}
use queuefy.Prelude.Int.{ℤ, pos, negsuc, ◌+ℤ◌}
use queuefy.Prelude.Text.{Text}
use queuefy.Value.{Value}
use queuefy.Run.{Run, Instant, pending, running, same_status, same_status_lem}
use queuefy.Store.Memory.Rows.{get}
use queuefy.Store.Memory.Holding as Holding
use queuefy.Store.Memory.Holding.{extended, completed, gave_up, requeued, on_held, requeue}
use queuefy.Store.Memory.Sweeping.{called_off}
use queuefy.Store.Memory.Sweeping as Sweeping
use queuefy.Store.Redis.Places.{lane, leased, settled, stamp, field, waiting_in}
use queuefy.Store.Redis.Commands.{Commands, IsRedis}
use queuefy.Store.Redis.Kept.{IsKept}
use queuefy.Store.Redis.Kept.Moves.{
  IsWritten, zrem-IsOnWay, stays-IsOnWay, hset-IsOnWay, zadd-IsWritten,
}
use queuefy.Store.Redis.Writing.{
  closing, failing, requeuing, extending, calling_off, settle, settle_run, heartbeat, complete,
  fail, retry_later, release, cancel,
}
use queuefy.Store.Redis.Writing.Alike.{
  IsAlike, if_held-IsAlike, running_leased, settle_closed, settle_requeued, changed_one, unchanged,
}

field_plain : (t : Text) → t ≢ [] → field t ≡ some t
field_plain [] p = absurd (p refl)
field_plain (c ∷ t) p = refl

+ℤ_zero : (a : ℤ) → a +ℤ pos 0 ≡ a
unfolding ◌+ℤ◌
+ℤ_zero a = ground arith

module _ {T : Type 0} (e : Commands T) (law : IsRedis e) (i : ℕ) (t : T) (worker : Text)
    (attempt : ℤ) (plain : worker ≢ []) (v : IsKept e.number (e.look t)) where
  -- What stands where SETTLE leaves it, up to an equation of the run.
  as_changed :
      (r a b : Run) (t' : T)
      → a ≡ b
      → IsWritten e.number (e.look t) i a (e.look t')
      → IsWritten e.number (e.look t) i b (e.look t')
  as_changed r a b t' same w = subst (λ x. IsWritten e.number (e.look t) i x (e.look t')) same w

  pub heartbeat-IsAlike :
      (lease : ℕ) (moment : Instant)
      → IsAlike e
          (Holding.heartbeat (e.look t).rows i worker attempt lease moment)
          (heartbeat e i worker attempt lease moment t)
  unfolding heartbeat Holding.heartbeat extended waiting_in
  heartbeat-IsAlike lease moment =
      if_held-IsAlike e law i t (extended lease moment) worker attempt
        (e.zadd leased (stamp (moment + lease)) i (e.hset i (extending (moment + lease)) t)) plain v
        (λ r here runs.
          let s = e.look t in
          let m = stays-IsOnWay e law i t leased r v here (running_leased e law i t r runs) in
          let m' =
            hset-IsOnWay e law i t s leased r m (extending (moment + lease)) (refl, refl, refl) in
          zadd-IsWritten e law i (e.hset i (extending (moment + lease)) t) s leased
            (extended lease moment r) m' (moment + lease)
            (rw (same_status_lem r.status running runs) refl))

  pub complete-IsAlike :
      (moment : Instant) (result : Option Value)
      → IsAlike e
          (Holding.complete (e.look t).rows i worker attempt moment result)
          (complete e i worker attempt moment result t)
  unfolding complete settle Holding.complete completed waiting_in
  complete-IsAlike moment result =
      let f = closing moment result in
      if_held-IsAlike e law i t (completed moment result) worker attempt
        (settle_run e f none (pos 0) i t) plain v
        (λ r here runs.
          as_changed r (record (f r) { attempts = r.attempts +ℤ pos 0 }) (completed moment result r)
            (settle_run e f none (pos 0) i t)
            (ap (λ a. record (f r) { attempts = a }) (+ℤ_zero r.attempts))
            (settle_closed e law i t r f (pos 0) (refl, refl, refl) v here runs moment refl refl))

  pub fail-IsAlike :
      (moment : Instant) (error error_type : Text)
      → error ≢ []
      → error_type ≢ []
      → IsAlike e
          (Holding.fail (e.look t).rows i worker attempt moment error error_type)
          (fail e i worker attempt moment error error_type t)
  unfolding fail settle Holding.fail gave_up waiting_in
  fail-IsAlike moment error error_type said named =
      let f = failing moment error error_type in
      if_held-IsAlike e law i t (gave_up moment error error_type) worker attempt
        (settle_run e f none (pos 0) i t) plain v
        (λ r here runs.
          as_changed r (record (f r) { attempts = r.attempts +ℤ pos 0 })
            (gave_up moment error error_type r) (settle_run e f none (pos 0) i t)
            (rw (field_plain error said, field_plain error_type named, +ℤ_zero r.attempts) refl)
            (settle_closed e law i t r f (pos 0) (refl, refl, refl) v here runs moment refl refl))

  requeue-IsAlike :
      (due_at : Instant) (error error_type : Text) (counted : ℤ)
      → error ≢ []
      → error_type ≢ []
      → IsAlike e
          (requeue (e.look t).rows i worker attempt due_at error error_type counted)
          (settle e i worker attempt (requeuing due_at error error_type) (some due_at) counted t)
  unfolding settle requeue requeued waiting_in
  requeue-IsAlike due_at error error_type counted said named =
      let f = requeuing due_at error error_type in
      if_held-IsAlike e law i t (requeued due_at error error_type counted) worker attempt
        (settle_run e f (some due_at) counted i t) plain v
        (λ r here runs.
          as_changed r (record (f r) { attempts = r.attempts +ℤ counted })
            (requeued due_at error error_type counted r) (settle_run e f (some due_at) counted i t)
            (rw (field_plain error said, field_plain error_type named) refl)
            (settle_requeued e law i t r f counted (refl, refl, refl) v here runs due_at refl))

  pub retry_later-IsAlike :
      (due_at : Instant) (error error_type : Text)
      → error ≢ []
      → error_type ≢ []
      → IsAlike e
          (Holding.retry_later (e.look t).rows i worker attempt due_at error error_type)
          (retry_later e i worker attempt due_at error error_type t)
  unfolding retry_later Holding.retry_later
  retry_later-IsAlike due_at error error_type said named =
      requeue-IsAlike due_at error error_type (pos 0) said named

  pub release-IsAlike :
      (due_at : Instant) (error error_type : Text)
      → error ≢ []
      → error_type ≢ []
      → IsAlike e
          (Holding.release (e.look t).rows i worker attempt due_at error error_type)
          (release e i worker attempt due_at error error_type t)
  unfolding release Holding.release
  release-IsAlike due_at error error_type said named =
      requeue-IsAlike due_at error error_type (negsuc 0) said named

module _ {T : Type 0} (e : Commands T) (law : IsRedis e) (i : ℕ) (t : T) (moment : Instant)
    (v : IsKept e.number (e.look t)) where
  cancel-IsWritten :
      (r : Run)
      → get (e.look t).rows i ≡ some r
      → same_status r.status pending ≡ true
      → IsWritten e.number (e.look t) i (called_off moment r) (
          e.look (
            e.zadd settled
              (stamp moment)
              i
              (e.hset i (calling_off moment) (e.zrem (lane r.queue r.priority) i t).0)))
  unfolding waiting_in
  cancel-IsWritten r here waits =
      let s = e.look t in
      let home = lane r.queue r.priority in
      let t1 = (e.zrem home i t).0 in
      let at_home : (waiting_in r).0 ≡ home = rw (same_status_lem r.status pending waits) refl in
      let m1 = zrem-IsOnWay e law i t home settled r v here at_home in
      let m2 = hset-IsOnWay e law i t1 s settled r m1 (calling_off moment) (refl, refl, refl) in
      zadd-IsWritten e law i (e.hset i (calling_off moment) t1) s settled (called_off moment r) m2
        moment refl

  as_was :
      (y : T × Bool)
      → Sweeping.cancel (e.look t).rows i moment ≡ ((e.look t).rows, false)
      → y ≡ (t, false)
      → IsAlike e (Sweeping.cancel (e.look t).rows i moment) y
  as_was y memory same =
      subst (IsAlike e (Sweeping.cancel (e.look t).rows i moment)) (sym same)
        (unchanged e law i t (Sweeping.cancel (e.look t).rows i moment) v memory)

  pub cancel-IsAlike : IsAlike e (Sweeping.cancel (e.look t).rows i moment) (cancel e i moment t)
  unfolding cancel Sweeping.cancel
  cancel-IsAlike = elim (Option-cases (get (e.look t).rows i)) [
    | inl gone ↦
        as_was (cancel e i moment t) (rw (gone, Sweeping.cancel) refl)
          (rw (law.hash_row i t ∙ gone) refl)
    | inr (r, here) ↦
        let read = law.hash_row i t ∙ here in
        elim (Bool-cases (same_status r.status pending)) [
          | inl waits ↦
              let t' =
                e.zadd settled (stamp moment) i
                  (e.hset i (calling_off moment) (e.zrem (lane r.queue r.priority) i t).0) in
              let done_so : cancel e i moment t ≡ (t', true) = rw read (rw waits refl) in
              subst (IsAlike e (Sweeping.cancel (e.look t).rows i moment)) (sym done_so) (
                changed_one e law i t r (called_off moment r) t'
                  (Sweeping.cancel (e.look t).rows i moment) here (cancel-IsWritten r here waits)
                  (rw (here, Sweeping.cancel) (rw waits refl)))
          | inr other ↦
              as_was (cancel e i moment t) (rw (here, Sweeping.cancel) (rw other refl))
                (rw read (rw other refl))
        ]
  ]
