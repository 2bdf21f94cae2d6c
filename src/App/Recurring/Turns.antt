-- ===== src/App/Recurring/Turns.antt =====
-- What a pass of `materialize` does about each task, and a pass whose slots are all written.
use queuefy.Prelude.{
  ◌≡◌, refl, sym, ap, ◌∙◌, inl, inr, true, not, Option, none, some, List, [], ◌∷◌, Bool-cases,
  Option-cases, subst, any, ◌⊎◌, length, ltb, ◌==◌, All,
}
use queuefy.Prelude.Text.{Text}
use queuefy.Errors.{
  Error, ok, err, ◌>>=◌, raise_if, queue_error, Ensures, >>=-Ensures, >>=-eq-ok, Result-cases,
  ok-injective,
}
use queuefy.Value.{Value, Float, text, dict, end}
use queuefy.Run.{Run, Instant}
use queuefy.Clock.{Stamp}
use queuefy.Trigger.{Trigger}
use queuefy.Task.{Task}
use queuefy.Store.Memory.Rows.{MemoryStore, add, taken}
use queuefy.Store.Base.{key_limit}
use queuefy.App.Payload.{encodable, as_written}
use queuefy.App.Guards.{occurrence_key, writable, holdable, keyed, scheduled}
use queuefy.App.Registry.{Tasks}
use queuefy.App.Enqueue.{build, checked_key, checked_priority}
use queuefy.App.Recurring.{
  Written, slot_of, remember, is_ahead, in_utc, Pass, with_slot, slot_run, write_slots,
}
use queuefy.App.Shared.{memory}
use queuefy.App.Shared.Once.{add-taken}

writable-text : (t : Text) → Ensures (λ w. w ≡ t) (writable (text t))
unfolding writable
writable-text t = >>=-Ensures (raise_if (not (encodable t)) queue_error) _ λ _ _.
    >>=-Ensures (raise_if (any (λ c. c == 0) t) queue_error) _ λ _ _ w e. sym (ok-injective t w e)

pub keyed-text : (t : Text) → Ensures (λ k. k ≡ t) (keyed (text t))
unfolding keyed holdable writable
keyed-text [] = λ k e. absurd (cc)
keyed-text (c ∷ t) = >>=-Ensures (writable (text (c ∷ t))) _ λ w p.
    >>=-Ensures (raise_if (ltb key_limit (length w)) queue_error) _ λ _ _ k e.
      let this : w ≡ k = ok-injective w k e in
      let that : w ≡ c ∷ t = writable-text (c ∷ t) w p in sym this ∙ that

abbrev pub KeyIs : Text → Run → Type 0
KeyIs t run = run.key ≡ some t

module _ (repr_float : Float → Text) where
  pub build-key :
      (task : Task) (due : Option Stamp) (payload : Value) (t : Text) (p : Option Value)
      (now : Instant)
      → Ensures (KeyIs t) (build repr_float task due payload (some (text t)) p now)
  unfolding build checked_key
  build-key task due payload t p now =
      >>=-Ensures {P = KeyIs t} (keyed (text t) >>= λ k. ok (some k)) _ λ key kept.
        >>=-Ensures {P = KeyIs t} (checked_priority p task.priority) _ λ priority _.
          >>=-Ensures {P = KeyIs t} (scheduled due) _ λ moment _.
            >>=-Ensures {P = KeyIs t} (as_written repr_float payload) _ λ arguments _ run e.
              let (k, passed, this) = >>=-eq-ok (keyed (text t)) _ kept in
              let same : k ≡ t = keyed-text t k passed in
              subst (KeyIs t) (ok-injective _ run e)
                (sym (ok-injective (some k) key this) ∙ ap some same)

  -- A slot is written under the name of its task and the instant that the trigger names.
  abbrev pub IsSlotRun : Task → Trigger → Instant → Instant × Run → Type 0
  IsSlotRun task trigger moment p =
      (trigger.next_after moment ≡ ok p.0) × (p.1.key ≡ some (occurrence_key task.name p.0))

  pub slot_run-IsSlotRun :
      (task : Task) (trigger : Trigger) (moment now : Instant)
      → Ensures (IsSlotRun task trigger moment) (slot_run repr_float task trigger moment now)
  unfolding slot_run
  slot_run-IsSlotRun task trigger moment now =
      >>=-Ensures {P = IsSlotRun task trigger moment} (trigger.next_after moment) _ λ t named.
        >>=-Ensures {P = IsSlotRun task trigger moment}
          (build repr_float task (in_utc t) (dict end) (some (text (occurrence_key task.name t)))
            none now)
          _
          λ r built p e. subst (IsSlotRun task trigger moment) (ok-injective (t, r) p e) (
            named,
            build-key task (in_utc t) (dict end) (occurrence_key task.name t) none now r built,
          )

  -- Two workers at one moment write a slot under one key, whenever their clocks say they do.
  pub slot_run_agree :
      (task : Task) (trigger : Trigger) (moment now now' : Instant) (p q : Instant × Run)
      → slot_run repr_float task trigger moment now ≡ ok p
      → slot_run repr_float task trigger moment now' ≡ ok q
      → p.1.key ≡ q.1.key
  slot_run_agree task trigger moment now now' p q e f =
      let (at_p, key_p) = slot_run-IsSlotRun task trigger moment now p e in
      let (at_q, key_q) = slot_run-IsSlotRun task trigger moment now' q f in
      let same : p.0 ≡ q.0 = ok-injective p.0 q.0 (sym at_p ∙ at_q) in
      key_p ∙ ap (λ t. some (occurrence_key task.name t)) same ∙ sym key_q

  -- The slot that the task wants at the moment stands in the store under its key.
  abbrev pub IsKept : MemoryStore → Instant → Task → Type 0
  IsKept s moment task =
      (trigger : Trigger) (now : Instant) (p : Instant × Run)
      → task.trigger ≡ some trigger
      → slot_run repr_float task trigger moment now ≡ ok p
      → taken s p.1.key ≡ true

  -- A pass that wrote nothing more: the store as it was, and the runs written before, or an error.
  abbrev pub IsIdle : MemoryStore → List Run → Pass MemoryStore → Type 0
  IsIdle s runs x = (x.0 ≡ s) × ((x.2 ≡ ok runs) ⊎ ((e : Error) × (x.2 ≡ err e)))

  module _ (moment now : Instant) (task : Task) (tasks : Tasks) (s : MemoryStore)
      (written : Written) (runs : List Run) where
    unfoldable pub pass : Tasks → MemoryStore → Written → List Run → Pass MemoryStore
    pass = write_slots repr_float memory moment now

    -- What a pass does about its first task.
    pub data Turn (out : Pass MemoryStore) : Type 0 where
      on_call : task.trigger ≡ none → out ≡ pass tasks s written runs → Turn out
      not_due :
          is_ahead (slot_of task.name written) moment ≡ true
          → out ≡ pass tasks s written runs
          → Turn out
      raised :
          (trigger : Trigger) (e : Error)
          → task.trigger ≡ some trigger
          → slot_run repr_float task trigger moment now ≡ err e
          → out ≡ (s, written, err e)
          → Turn out
      wrote :
          (trigger : Trigger) (p : Instant × Run)
          → task.trigger ≡ some trigger
          → slot_run repr_float task trigger moment now ≡ ok p
          → out
            ≡ pass tasks
                (add s p.1).0
                (remember task.name p.0 written)
                (with_slot (add s p.1).1 runs)
          → Turn out

    pub turn : Turn (pass (task ∷ tasks) s written runs)
    unfolding pass write_slots memory
    turn = elim (Option-cases task.trigger) [
      | inl absent ↦ on_call absent (rw (absent, write_slots) refl)
      | inr (trigger, here) ↦ elim (Bool-cases (is_ahead (slot_of task.name written) moment)) [
        | inl ahead ↦ not_due ahead (rw (here, write_slots) (rw ahead refl))
        | inr due ↦ elim (Result-cases (slot_run repr_float task trigger moment now)) [
          | inl (p, made) ↦
              wrote trigger p here made (rw (here, write_slots) (rw due (rw made refl)))
          | inr (e, refused) ↦
              raised trigger e here refused (rw (here, write_slots) (rw due (rw refused refl)))
        ]
      ]
    ]

  pub write_slots-IsIdle :
      (tasks : Tasks) (moment now : Instant) (s : MemoryStore) (written : Written) (runs : List Run)
      → All (IsKept s moment) tasks
      → IsIdle s runs (write_slots repr_float memory moment now tasks s written runs)
  unfolding pass write_slots
  write_slots-IsIdle [] moment now s written runs k = (refl, inl refl)
  write_slots-IsIdle (task ∷ tasks) moment now s written runs k =
      elim (turn moment now task tasks s written runs) [
        | on_call _ out ↦ rw out (write_slots-IsIdle tasks moment now s written runs k.1)
        | not_due _ out ↦ rw out (write_slots-IsIdle tasks moment now s written runs k.1)
        | raised trigger e _ _ out ↦ rw out (refl, inr (e, refl))
        | wrote trigger p here made out ↦
            rw (out, add-taken s p.1 (k.0 trigger now p here made))
              (write_slots-IsIdle tasks moment now s (remember task.name p.0 written) runs k.1)
      ]
