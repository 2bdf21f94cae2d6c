-- ===== src/App/Recurring/Twice.antt =====
-- Every worker writes the same slots, and one run is left of each: a second pass adds nothing.
use queuefy.Prelude.{
  ◌≡◌, refl, sym, ◌∙◌, inl, inr, Bool, true, false, Option, none, some, List, [], ◌∷◌, ◌++◌, arith,
  Bool-cases, any, if◌then◌else◌, All, subst,
}
use mathlib.Core.Option.{some-injective}
use queuefy.App.Guards.{occurrence_key}
use queuefy.Prelude.Text.{Text, ◌==◌ as text_eq}
use queuefy.Errors.{ok, err}
use queuefy.Value.{Float}
use queuefy.Run.{Run, Instant}
use queuefy.Trigger.{Trigger}
use queuefy.Task.{Task}
use queuefy.Store.Memory.Rows.{Entry, MemoryStore, add, taken, key_of}
use queuefy.Store.Memory.Rows.Exact.{taken-find, written}
use queuefy.App.Shared.Once.{add-taken, find-add}
use queuefy.App.Registry.{Tasks}
use queuefy.App.Recurring.{
  Written, slot_of, remember, with_slot, Pass, slot_run, write_slots, materialize,
}
use queuefy.App.Shared.{memory}
use queuefy.App.Recurring.Turns.{
  slot_run-IsSlotRun, slot_run_agree, IsKept, IsIdle, on_call, not_due, raised, wrote, turn,
  write_slots-IsIdle, pass,
}

-- No two tasks share a name; `register` sees to it.
abbrev pub Separate : Tasks → Type 0
Separate [] = Unit
Separate (t ∷ ts) = All (λ u. text_eq t.name u.name ≡ false) ts × Separate ts

any-append :
    (test : Entry → Bool) (es : List Entry) (e : Entry)
    → any test (es ++ e ∷ []) ≡ (if any test es then true else test e)
any-append test [] e = ground arith
any-append test (x ∷ es) e = ground (arith, any-append test es e)

-- A key that is taken stays taken when a run is added.
taken-add :
    (s : MemoryStore) (run : Run) (k : Option Text)
    → taken s k ≡ true
    → taken (add s run).0 k ≡ true
unfolding taken add
taken-add s run none h = cc
taken-add s run (some k) h =
    ground (arith, any-append (key_of k) s.runs (s.sequence, record run { id = some s.sequence }))

taken-add_self :
    (s : MemoryStore) (run : Run) (k : Text)
    → run.key ≡ some k
    → taken (add s run).0 (some k) ≡ true
taken-add_self s run k h = elim (Bool-cases (taken s run.key)) [
  | inl full ↦ rw (add-taken s run full) (rw h at full)
  | inr free ↦ (taken-find (add s run).0 k).1 (written s run, find-add s run k h free)
]

nothing_remembered : (ts : Tasks) → All (λ u. slot_of u.name [] ≡ none) ts
unfolding slot_of
nothing_remembered [] = tt
nothing_remembered (u ∷ ts) = (refl, nothing_remembered ts)

module _ (repr_float : Float → Text) (moment now : Instant) where
  taken-write_slots :
      (tasks : Tasks) (s : MemoryStore) (kept : Written) (runs : List Run) (k : Option Text)
      → taken s k ≡ true
      → taken (write_slots repr_float memory moment now tasks s kept runs).0 k ≡ true
  unfolding write_slots pass
  taken-write_slots [] s kept runs k h = h
  taken-write_slots (task ∷ tasks) s kept runs k h =
      elim (turn repr_float moment now task tasks s kept runs) [
        | on_call _ out ↦ rw out (taken-write_slots tasks s kept runs k h)
        | not_due _ out ↦ rw out (taken-write_slots tasks s kept runs k h)
        | raised _ e _ _ out ↦ rw out h
        | wrote _ p _ _ out ↦ rw out (
            taken-write_slots tasks (add s p.1).0 (remember task.name p.0 kept)
              (with_slot (add s p.1).1 runs) k (taken-add s p.1 k h))
      ]

  slot_of-remember :
      (ts : Tasks) (name : Text) (t : Instant) (kept : Written)
      → All (λ u. text_eq name u.name ≡ false) ts
      → All (λ u. slot_of u.name kept ≡ none) ts
      → All (λ u. slot_of u.name (remember name t kept) ≡ none) ts
  unfolding slot_of remember
  slot_of-remember [] name t kept p q = tt
  slot_of-remember (u ∷ ts) name t kept p q = (rw p.0 q.0, slot_of-remember ts name t kept p.1 q.1)

  own_slot :
      (task : Task) (trigger : Trigger) (p : Instant × Run) (s : MemoryStore)
      → task.trigger ≡ some trigger
      → slot_run repr_float task trigger moment now ≡ ok p
      → (s' : MemoryStore) → ((k : Option Text) → taken (add s p.1).0 k ≡ true → taken s' k ≡ true)
      → IsKept repr_float s' moment task
  own_slot task trigger p s here made s' later trigger' now' q here' made' =
      let same : trigger' ≡ trigger = some-injective trigger' trigger (sym here' ∙ here) in
      let again = subst (λ x. slot_run repr_float task x moment now' ≡ ok q) same made' in
      let key = (slot_run-IsSlotRun repr_float task trigger moment now p made).1 in
      rw (← slot_run_agree repr_float task trigger moment now now' p q made again, key)
        (later (some (occurrence_key task.name p.0))
          (taken-add_self s p.1 (occurrence_key task.name p.0) key))

  from_turn :
      (task : Task) (tasks : Tasks) {x y : Pass MemoryStore}
      → x ≡ y
      → All (IsKept repr_float x.0 moment) (task ∷ tasks)
      → All (IsKept repr_float y.0 moment) (task ∷ tasks)
  from_turn task tasks e h =
      subst (λ (x : Pass MemoryStore). All (IsKept repr_float x.0 moment) (task ∷ tasks)) e h

  -- A pass that begins with no slot remembered and ends well leaves the slot of every task.
  All-IsKept :
      (tasks : Tasks) (s : MemoryStore) (kept : Written) (runs runs' : List Run)
      → Separate tasks
      → All (λ u. slot_of u.name kept ≡ none) tasks
      → (write_slots repr_float memory moment now tasks s kept runs).2 ≡ ok runs'
      → All
          (IsKept repr_float (write_slots repr_float memory moment now tasks s kept runs).0 moment)
          tasks
  unfolding write_slots pass
  All-IsKept [] s kept runs runs' d u e = tt
  All-IsKept (task ∷ tasks) s kept runs runs' d u e =
      elim (turn repr_float moment now task tasks s kept runs) [
        | on_call absent out ↦ from_turn task tasks (sym out) (
          λ trigger now' p here made. absurd (cc),
          All-IsKept tasks s kept runs runs' d.1 u.1 (rw out at e),
        )
        | not_due ahead out ↦ let never : false ≡ true = rw u.0 at ahead in absurd (cc)
        | raised _ r _ _ out ↦ let never : err r ≡ ok runs' = rw out at e in absurd (cc)
        | wrote trigger p here made out ↦
            let s' = (add s p.1).0 in
            let kept' = remember task.name p.0 kept in
            let runs'' = with_slot (add s p.1).1 runs in
            from_turn task tasks (sym out) (
              own_slot task trigger p s here made
                  (write_slots repr_float memory moment now tasks s' kept' runs'').0
                  (taken-write_slots tasks s' kept' runs''),
              All-IsKept tasks s' kept' runs'' runs' d.1
                  (slot_of-remember tasks task.name p.0 kept d.0 u.1) (rw out at e),
            )
      ]

-- After a pass over tasks of different names that began with no slot remembered and raised nothing, a
-- pass of any worker at the same moment, whatever it remembers and whatever its clock says, leaves
-- the store as it is, and answers with no run unless an exception stops it.
pub materialize_twice :
    (repr_float : Float → Text) (tasks : Tasks) (moment now now' : Instant) (s : MemoryStore)
    (kept : Written) (runs : List Run)
    → Separate tasks
    → (materialize repr_float memory tasks moment now s []).2 ≡ ok runs
    → let s' = (materialize repr_float memory tasks moment now s []).0 in
      IsIdle repr_float s' [] (materialize repr_float memory tasks moment now' s' kept)
unfolding materialize
materialize_twice repr_float tasks moment now now' s kept runs d e =
    write_slots-IsIdle repr_float tasks moment now'
      (write_slots repr_float memory moment now tasks s [] []).0 kept []
      (All-IsKept repr_float moment now tasks s [] [] runs d (nothing_remembered tasks) e)
