-- ===== src/Worker/Passes/Kept.antt =====
-- What comes before the claim keeps the store well formed, and a pass takes no more runs than the worker has room for.
use queuefy.Prelude.{
  ℕ, ◌+◌, ◌≤◌, ◌≡◌, refl, subst, inl, inr, Option, none, some, List, [], ◌∷◌, arith, ◌==◌, length,
  length-append, Bool-cases, All,
}
use queuefy.Prelude.Int.{ℤ, pos, ◌-ℤ◌}
use queuefy.Prelude.Text.{Text}
use queuefy.Errors.{Result, ok, err, Ensures, >>=-Ensures, ok-injective}
use queuefy.Value.{Float, text, dict, end}
use queuefy.Run.{Run, Instant}
use queuefy.Clock.{in_range}
use queuefy.Trigger.{Trigger}
use queuefy.Task.{Task}
use queuefy.Store.Memory.Rows.{MemoryStore, add}
use queuefy.Store.Memory.Claiming.{claim}
use queuefy.Store.Memory.Claiming.Exact.{length-claim}
use queuefy.Store.Memory.Sweeping.{reclaim, purge}
use queuefy.Store.Memory.Life.{adds, claims, reclaims, purges, step}
use queuefy.Store.Memory.Invariant.Coherence.{IsCoherent}
use queuefy.Store.Memory.Invariant.{IsWellFormed, step-IsWellFormed}
use queuefy.App.Guards.{occurrence_key}
use queuefy.App.Registry.{Tasks}
use queuefy.App.Registry.Gate.{IsTask}
use queuefy.App.Enqueue.{build}
use queuefy.App.Enqueue.Built.{build-IsBuilt}
use queuefy.App.Recurring.{Written, remember, with_slot, in_utc, slot_run, write_slots, materialize}
use queuefy.App.Recurring.Turns.{turn, on_call, not_due, raised, wrote, pass}
use queuefy.App.Shared.{memory}
use queuefy.Worker.Passes.{
  Worker, holding, free, is_recent, pruned_at, tidy, spawn, spawn_each, housekeeping, claim_free,
  run_once, purge_limit,
}

module _ (s : MemoryStore) (v : IsWellFormed s) where
  pub reclaim-IsWellFormed : (moment : Instant) → IsWellFormed (reclaim s moment).0
  unfolding step
  reclaim-IsWellFormed moment = step-IsWellFormed s (reclaims moment) v tt

  purge-IsWellFormed : (before : Instant) (limit : ℕ) → IsWellFormed (purge s before limit).0
  unfolding step
  purge-IsWellFormed before limit = step-IsWellFormed s (purges before limit) v tt

  claim-IsWellFormed :
      (worker : Text) (queues : List Text) (limit lease : ℕ) (moment : Instant)
      → IsWellFormed (claim s worker queues limit lease moment).0
  unfolding step
  claim-IsWellFormed worker queues limit lease moment =
      step-IsWellFormed s (claims worker queues limit lease moment) v tt

  pub add-IsWellFormed : (run : Run) → IsCoherent run → IsWellFormed (add s run).0
  unfolding step
  add-IsWellFormed run coherent = step-IsWellFormed s (adds run) v coherent

  pruned_at-IsWellFormed :
      (clock : ℤ) (before : Result Instant) → IsWellFormed (pruned_at s clock before).0
  pruned_at-IsWellFormed clock (err e) = v
  pruned_at-IsWellFormed clock (ok before) = purge-IsWellFormed before purge_limit

  pub tidy-IsWellFormed :
      (kept : Option ℕ) (purged : Option ℤ) (moment : Instant) (clock : ℤ)
      → IsWellFormed (tidy kept purged s moment clock).0
  unfolding tidy
  tidy-IsWellFormed none purged moment clock = v
  tidy-IsWellFormed (some kept) purged moment clock = elim (Bool-cases (is_recent purged clock)) [
    | inl recent ↦ rw recent v
    | inr late ↦ rw late (pruned_at-IsWellFormed clock (in_range (pos moment -ℤ pos kept)))
  ]

module _ (repr_float : Float → Text) (moment built : Instant) where
  pub slot_run-IsCoherent :
      (task : Task) (trigger : Trigger)
      → IsTask task
      → Ensures (λ p. IsCoherent p.1) (slot_run repr_float task trigger moment built)
  unfolding slot_run
  slot_run-IsCoherent task trigger fits =
      >>=-Ensures {P = λ p. IsCoherent p.1} (trigger.next_after moment) _ λ due_at _.
        let key = some (text (occurrence_key task.name due_at)) in
        >>=-Ensures {P = λ p. IsCoherent p.1}
          (build repr_float task (in_utc due_at) (dict end) key none built) _
          λ run made p e.
            subst (λ p. IsCoherent p.1) (ok-injective (due_at, run) p e)
              (build-IsBuilt repr_float task fits (in_utc due_at) (dict end) key none built run
                made).0

  write_slots-IsWellFormed :
      (tasks : Tasks) (s : MemoryStore) (kept : Written) (runs : List Run)
      → All IsTask tasks
      → IsWellFormed s
      → IsWellFormed (write_slots repr_float memory moment built tasks s kept runs).0
  unfolding write_slots pass
  write_slots-IsWellFormed [] s kept runs fits v = v
  write_slots-IsWellFormed (task ∷ tasks) s kept runs fits v =
      elim (turn repr_float moment built task tasks s kept runs) [
        | on_call _ out ↦ rw out (write_slots-IsWellFormed tasks s kept runs fits.1 v)
        | not_due _ out ↦ rw out (write_slots-IsWellFormed tasks s kept runs fits.1 v)
        | raised _ e _ _ out ↦ rw out v
        | wrote trigger p _ made out ↦ rw out (
            write_slots-IsWellFormed tasks (add s p.1).0 (remember task.name p.0 kept)
              (with_slot (add s p.1).1 runs) fits.1
              (add-IsWellFormed s v p.1 (slot_run-IsCoherent task trigger fits.0 p made)))
      ]

spawn_each_running :
    (w : Worker) (runs : List Run)
    → length (spawn_each w runs).running ≡ length w.running + length runs
unfolding spawn_each spawn
spawn_each_running w [] = omega arith
spawn_each_running w (run ∷ runs) =
    omega (arith, spawn_each_running (spawn w run) runs, length-append w.running (run ∷ []))

spawn_each_rest :
    (w : Worker) (runs : List Run)
    → ((spawn_each w runs).stranded ≡ w.stranded)
      × ((spawn_each w runs).concurrency ≡ w.concurrency)
unfolding spawn_each spawn
spawn_each_rest w [] = (refl, refl)
spawn_each_rest w (run ∷ runs) = spawn_each_rest (spawn w run) runs

-- What a worker has in flight, threads that it no longer waits for included, fits its concurrency.
abbrev pub HasRoom : Worker → Type 0
HasRoom w = length w.running + w.stranded ≤ w.concurrency

module _ (repr_float : Float → Text) (tasks : Tasks) (moment built later : Instant)
    (clock : ℤ) where
  pub housekeeping-IsWellFormed :
      (w : Worker) (s : MemoryStore)
      → All IsTask tasks
      → IsWellFormed s
      → IsWellFormed (housekeeping repr_float tasks moment built later clock w s).0
  unfolding housekeeping materialize
  housekeeping-IsWellFormed w s fits v =
      let s1 = (reclaim s moment).0 in
      let v1 = reclaim-IsWellFormed s v moment in
      let (s2, purged, gone) = tidy w.keep w.purged s1 moment clock in
      write_slots-IsWellFormed repr_float moment built tasks s2 w.written [] fits
        (tidy-IsWellFormed s1 v1 w.keep w.purged moment clock)

  claim_free-HasRoom :
      (w : Worker) (s : MemoryStore)
      → HasRoom w
      → HasRoom (claim_free repr_float tasks moment built later clock w s).1
  unfolding claim_free free holding
  claim_free-HasRoom w s h = elim (Bool-cases (free w == 0)) [
    | inl full ↦ rw full h
    | inr room ↦
        let claimed = (claim s w.name w.queues (free w) w.lease later).1 in
        let running = spawn_each_running w claimed in
        let (stranded, concurrency) = spawn_each_rest w claimed in
        let few = length-claim s w.name w.queues (free w) w.lease later in
        rw room (omega (arith, running, stranded, concurrency, few, h))
  ]

  claim_free-IsWellFormed :
      (w : Worker) (s : MemoryStore)
      → IsWellFormed s
      → IsWellFormed (claim_free repr_float tasks moment built later clock w s).0
  unfolding claim_free
  claim_free-IsWellFormed w s v = elim (Bool-cases (free w == 0)) [
    | inl full ↦ rw full v
    | inr room ↦ rw room (claim-IsWellFormed s v w.name w.queues (free w) w.lease later)
  ]

-- A worker whose runs and abandoned threads fit its concurrency takes no more in a pass than it has
-- room for: they fit it afterwards.
pub run_once-HasRoom :
    (repr_float : Float → Text) (tasks : Tasks) (moment built later : Instant) (clock : ℤ)
    (w : Worker) (s : MemoryStore)
    → HasRoom w
    → HasRoom (run_once repr_float tasks moment built later clock w s).1
unfolding run_once housekeeping
run_once-HasRoom repr_float tasks moment built later clock w s h =
    let (s', w') = housekeeping repr_float tasks moment built later clock w s in
    claim_free-HasRoom repr_float tasks moment built later clock w' s' h
