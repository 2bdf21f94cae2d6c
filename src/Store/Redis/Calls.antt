-- ===== src/Store/Redis/Calls.antt =====
-- A call of src/queuefy/store/redis.py as one step of the keys: redis runs a script to its end before
-- it answers anybody else.
pub mod Kept
use queuefy.Prelude.{
  ℕ, ◌≤◌, ◌≡◌, ◌≢◌, refl, sym, ap, subst, ◌∙◌, inl, inr, none, some, Option, List, [], ◌∷◌, arith,
}
use queuefy.Prelude.Text.{Text}
use queuefy.Run.{Run, Instant}
use queuefy.Store.Memory.Rows.{MemoryStore, get}
use queuefy.Store.Memory.Life.{
  Call, adds, claims, beats, completes, fails, retries, releases, reclaims, cancels, purges, step,
  Row, same,
}
use queuefy.Store.Memory.Life.Steps.{step-Row}
use queuefy.Store.Memory.History.{sequence-step}
use queuefy.Store.Redis.Commands.{Commands, IsRedis}
use queuefy.Store.Redis.Kept.{IsKept}
use queuefy.Store.Redis.Writing.{add, heartbeat, complete, fail, retry_later, release, cancel}
use queuefy.Store.Redis.Writing.Alike.{IsAlike}
use queuefy.Store.Redis.Writing.Calls.{
  heartbeat-IsAlike, complete-IsAlike, fail-IsAlike, retry_later-IsAlike, release-IsAlike,
  cancel-IsAlike,
}
use queuefy.Store.Redis.Writing.Insert.{IsPlain}
use queuefy.Store.Redis.Writing.Keys.{redis_add-IsAdded}
use queuefy.Store.Redis.Claiming.{claim}
use queuefy.Store.Redis.Claiming.Loop.{claim-IsClaiming, claim-Row}
use queuefy.Store.Redis.Sweeping.{reclaim, purge}
use queuefy.Store.Redis.Sweeping.Rows.{reclaim-IsUnderway, reclaim-Row}
use queuefy.Store.Redis.Sweeping.Dropped.{purge-IsPruning, purge-Row}

-- A call of the store, and the keys that it leaves.
unfoldable pub perform : {T : Type 0} → Commands T → T → Call → T
unfolding add claim heartbeat complete fail retry_later release reclaim cancel purge
perform e t (adds run) = (add e run t).0
perform e t (claims worker queues limit lease moment) =
    (claim e worker lease moment queues limit t).0
perform e t (beats id worker attempt lease moment) =
    (heartbeat e id worker attempt lease moment t).0
perform e t (completes id worker attempt moment result) =
    (complete e id worker attempt moment result t).0
perform e t (fails id worker attempt moment error kind) =
    (fail e id worker attempt moment error kind t).0
perform e t (retries id worker attempt due_at error kind) =
    (retry_later e id worker attempt due_at error kind t).0
perform e t (releases id worker attempt due_at error kind) =
    (release e id worker attempt due_at error kind t).0
perform e t (reclaims moment) = (reclaim e moment t).0
perform e t (cancels id moment) = (cancel e id moment t).0
perform e t (purges moment limit) = (purge e moment limit t).0

-- A call with no empty text, which a hash has for nothing: a worker, an error and its type have a
-- character each, and so does what a run that is written carries of them.
abbrev pub IsSpoken : Call → Type 0
IsSpoken (adds run) = IsPlain run
IsSpoken (claims worker queues limit lease moment) = worker ≢ []
IsSpoken (beats id worker attempt lease moment) = worker ≢ []
IsSpoken (completes id worker attempt moment result) = worker ≢ []
IsSpoken (fails id worker attempt moment error kind) = (worker ≢ []) × (error ≢ []) × (kind ≢ [])
IsSpoken (retries id worker attempt due_at error kind) = (worker ≢ []) × (error ≢ []) × (kind ≢ [])
IsSpoken (releases id worker attempt due_at error kind) = (worker ≢ []) × (error ≢ []) × (kind ≢ [])
IsSpoken _ = Unit

-- What a call may leave: every run where it waits, numbers that only grow, and one change of each
-- run at most.
pub record IsPerformed {T : Type 0} (e : Commands T) (t : T) (c : Call) (t' : T) : Type 0 where
  pub kept : IsKept e.number (e.look t')
  pub sequence : (e.look t).rows.sequence ≤ (e.look t').rows.sequence
  pub rows : (i : ℕ) → Row (e.look t).rows c i (get (e.look t').rows i)

module _ {T : Type 0} (e : Commands T) (law : IsRedis e) (t : T)
    (v : IsKept e.number (e.look t)) where
  -- A call that leaves what the memory store does.
  alike :
      {A : Type 0} (c : Call) (memory : MemoryStore × A) (x : T × A)
      → memory.0 ≡ step (e.look t).rows c
      → IsAlike e memory x
      → IsPerformed e t c x.0
  alike c memory x is_step a =
      let s = (e.look t).rows in
      record {
        kept = a.kept;
        sequence = rw (a.sequence ∙ ap (λ s'. s'.sequence) is_step) (sequence-step s c);
        rows = λ i.
            subst (Row s c i) (sym (a.rows i ∙ ap (λ s'. get s' i) is_step))
              (step-Row s c i v.numbered.distinct v.numbered.below);
      }

  -- Where every run waits as it should and the call has no empty text for a worker, an error or its
  -- type: whatever the script does, it leaves every run in the one set where it waits, it takes no
  -- number back, and it makes at most one change of the contract to the run under each number.
  pub perform-IsPerformed : (c : Call) → IsSpoken c → IsPerformed e t c (perform e t c)
  unfolding perform step
  perform-IsPerformed (adds run) plain = elim (redis_add-IsAdded e law run plain t v) [
    | inl (key, its, reserved, unwritten, told) ↦ record {
      kept = subst (IsKept e.number) (sym unwritten) v;
      sequence = rw unwritten (omega arith);
      rows = λ i. same (ap (λ k. get k.rows i) unwritten);
    }
    | inr a ↦ alike (adds run) _ (add e run t) refl a
  ]
  perform-IsPerformed (claims worker queues limit lease moment) plain =
      let u = claim-IsClaiming e law worker lease moment plain queues limit t v in
      record {
        kept = u.kept;
        sequence = omega (arith, u.underway.sequence);
        rows = claim-Row e law worker lease moment plain queues limit t v;
      }
  perform-IsPerformed (beats id worker attempt lease moment) plain =
      alike (beats id worker attempt lease moment) _ (heartbeat e id worker attempt lease moment t)
        refl (heartbeat-IsAlike e law id t worker attempt plain v lease moment)
  perform-IsPerformed (completes id worker attempt moment result) plain =
      alike (completes id worker attempt moment result) _
        (complete e id worker attempt moment result t) refl
        (complete-IsAlike e law id t worker attempt plain v moment result)
  perform-IsPerformed (fails id worker attempt moment error kind) (plain, said, named) =
      alike (fails id worker attempt moment error kind) _
        (fail e id worker attempt moment error kind t) refl
        (fail-IsAlike e law id t worker attempt plain v moment error kind said named)
  perform-IsPerformed (retries id worker attempt due_at error kind) (plain, said, named) =
      alike (retries id worker attempt due_at error kind) _
        (retry_later e id worker attempt due_at error kind t) refl
        (retry_later-IsAlike e law id t worker attempt plain v due_at error kind said named)
  perform-IsPerformed (releases id worker attempt due_at error kind) (plain, said, named) =
      alike (releases id worker attempt due_at error kind) _
        (release e id worker attempt due_at error kind t) refl
        (release-IsAlike e law id t worker attempt plain v due_at error kind said named)
  perform-IsPerformed (reclaims moment) plain =
      let (kept, underway) = reclaim-IsUnderway e law moment t v in
      record {
        kept = kept;
        sequence = omega (arith, underway.sequence);
        rows = reclaim-Row e law moment t v;
      }
  perform-IsPerformed (cancels id moment) plain =
      alike (cancels id moment) _ (cancel e id moment t) refl (cancel-IsAlike e law id t moment v)
  perform-IsPerformed (purges moment limit) plain =
      let u = purge-IsPruning e law moment limit t v in
      record {
        kept = u.kept;
        sequence = omega (arith, u.sequence);
        rows = purge-Row e law moment limit t v;
      }
