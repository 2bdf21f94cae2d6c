-- ===== src/Store/Redis/Sweeping.antt =====
-- src/queuefy/store/redis.py: RECLAIM and PURGE, and the methods that run them.
pub mod Rows
pub mod Dropped
use queuefy.Prelude.{ℕ, Bool, Option, none, some, List, [], ◌∷◌, if◌then◌else◌, length}
use queuefy.Prelude.Text.{Text, codes}
use queuefy.Run.{Run, Instant, pending, failed, exhausted}
use queuefy.Store.Base.{reclaim_batch}
use queuefy.Store.Redis.Places.{lane, leased, settled, stamp, read_text}
use queuefy.Store.Redis.Commands.{Commands}

abbrev pub giving_up : Instant → Run → Run
giving_up moment run = record run {
  status = failed;
  finished_at = some moment;
  error = some (codes "the worker holding this run stopped answering");
  error_type = some (codes "LeaseExpired");
  worker = none;
  lease_until = none;
  started_at = none;
}

abbrev pub putting_back : Instant → Run → Run
putting_back moment run = record run {
  status = pending;
  due_at = moment;
  worker = none;
  lease_until = none;
  started_at = none;
}

-- `named`: nothing of a run that is gone, and of one with no key.
abbrev pub key_named : Option Run → Option Text
key_named none = none
key_named (some run) = read_text run.key

module _ {T : Type 0} (e : Commands T) where
  -- The lane is read after the fields are written; a run that is gone is in none.
  abbrev pub seat_back : Instant → ℕ → Option Run → T → T
  seat_back moment i none t = t
  seat_back moment i (some run) t = e.zadd (lane run.queue run.priority) (stamp moment) i t

  unfoldable pub lapse : Instant → ℕ → Run → T → T
  unfolding exhausted stamp
  lapse moment i run t =
      let t' = e.hset i (putting_back moment) t in
      if exhausted run
      then e.zadd settled (stamp moment) i (e.hset i (giving_up moment) t)
      else seat_back moment i (e.hash i t') t'

  -- A run that somebody deleted has no attempts.
  abbrev pub lapse_if : Instant → ℕ → Option Run → T → T
  lapse_if moment i none t = t
  lapse_if moment i (some run) t = lapse moment i run t

  unfoldable pub take_back : Instant → ℕ → T → T
  unfolding lapse
  take_back moment i t = let (t', _) = e.zrem leased i t in lapse_if moment i (e.hash i t') t'

  unfoldable pub take_back_each : Instant → List ℕ → T → T
  unfolding take_back
  take_back_each moment [] t = t
  take_back_each moment (i ∷ ids) t = take_back_each moment ids (take_back moment i t)

  -- RECLAIM.
  unfoldable pub reclaim : Instant → T → T × ℕ
  unfolding take_back_each
  reclaim moment t =
      let expired = e.short_of leased (stamp moment) reclaim_batch t in
      (take_back_each moment expired t, length expired)

  abbrev pub free_key : Option Text → T → T
  free_key none t = t
  free_key (some key) t = e.free key t

  unfoldable pub drop : ℕ → T → T
  drop i t = (e.zrem settled i (e.del i (free_key (key_named (e.hash i t)) t))).0

  unfoldable pub drop_each : List ℕ → T → T
  unfolding drop
  drop_each [] t = t
  drop_each (i ∷ ids) t = drop_each ids (drop i t)

  -- PURGE.
  unfoldable pub purge : Instant → ℕ → T → T × ℕ
  unfolding drop_each stamp
  purge before limit t =
      let gone = e.short_of settled (stamp before) limit t in (drop_each gone t, length gone)
