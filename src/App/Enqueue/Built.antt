-- ===== src/App/Enqueue/Built.antt =====
-- A run that `build` makes is one that a store may be asked to add.
use queuefy.Prelude.{
  ℕ, ◌≡◌, refl, sym, ◌∙◌, ap, Option, none, some, [], ◌∷◌, arith, subst, not, any, ltb, length,
  ◌==◌,
}
use queuefy.Prelude.Int.{ℤ, pos, ◌≤ℤ◌}
use queuefy.Prelude.Text.{Text}
use queuefy.Errors.{ok, raise_if, queue_error, Ensures, >>=-Ensures, ok-injective}
use queuefy.Value.{Value, Float, text}
use queuefy.Run.{Run, Instant}
use queuefy.Store.Base.{key_limit, attempt_limit}
use queuefy.Clock.{Stamp}
use queuefy.Task.{Task}
use queuefy.Store.Memory.Invariant.Coherence.{IsCoherent}
use queuefy.App.Payload.{encodable, as_written}
use queuefy.App.Guards.{writable, holdable, keyed, scheduled}
use queuefy.App.Registry.Gate.{IsTask, Fits, Ranks, holdable-Fits, ranked-Ranks}
use queuefy.App.Enqueue.{checked_key, checked_priority, build}

-- The key, where there is one, fits its column.
abbrev pub KeyFits : Option Text → Type 0
KeyFits none = Unit
KeyFits (some k) = Fits key_limit k

keyed-Fits : (v : Value) → Ensures (Fits key_limit) (keyed v)
unfolding keyed
keyed-Fits (text []) = λ k e. absurd (cc)
keyed-Fits (text (c ∷ t)) = holdable-Fits (text (c ∷ t)) key_limit
keyed-Fits _ = λ k e. absurd (cc)

-- The key that was asked for, or none.
abbrev pub KeyIs : Option Value → Option Text → Type 0
KeyIs none k = k ≡ none
KeyIs (some (text t)) k = k ≡ some t
KeyIs (some _) k = ⊥

writable_text : (t : Text) → Ensures (λ k. k ≡ t) (writable (text t))
unfolding writable
writable_text t = >>=-Ensures {P = λ k. k ≡ t} (raise_if (not (encodable t)) queue_error) _ λ _ _.
    >>=-Ensures {P = λ k. k ≡ t} (raise_if (any (λ c. c == 0) t) queue_error) _
      λ _ _ k e. ok-injective k t (sym e)

holdable_text : (t : Text) (limit : ℕ) → Ensures (λ k. k ≡ t) (holdable (text t) limit)
unfolding holdable
holdable_text t limit = >>=-Ensures {P = λ k. k ≡ t} (writable (text t)) _ λ w same.
    >>=-Ensures {P = λ k. k ≡ t} (raise_if (ltb limit (length w)) queue_error) _
      λ _ _ k e. ok-injective k w (sym e) ∙ writable_text t w same

keyed-KeyIs : (v : Value) → Ensures (λ k. KeyIs (some v) (some k)) (keyed v)
unfolding keyed
keyed-KeyIs (text []) = λ k e. absurd (cc)
keyed-KeyIs (text (c ∷ t)) = λ k e. ap some (holdable_text (c ∷ t) key_limit k e)
keyed-KeyIs _ = λ k e. absurd (cc)

checked_key-KeyIs : (key : Option Value) → Ensures (KeyIs key) (checked_key key)
unfolding checked_key
checked_key-KeyIs none = λ k e. ok-injective k none (sym e)
checked_key-KeyIs (some v) =
    >>=-Ensures {P = KeyIs (some v)} (keyed v) _
      λ k is o e. subst (KeyIs (some v)) (ok-injective (some k) o e) (keyed-KeyIs v k is)

checked_key-KeyFits : (key : Option Value) → Ensures KeyFits (checked_key key)
unfolding checked_key
checked_key-KeyFits none = λ k e. subst KeyFits (ok-injective none k e) tt
checked_key-KeyFits (some v) =
    >>=-Ensures {P = KeyFits} (keyed v) _
      λ k fits o e. subst KeyFits (ok-injective (some k) o e) (keyed-Fits v k fits)

checked_priority-Ranks :
    (given : Option Value) (p : ℤ) → Ranks p → Ensures Ranks (checked_priority given p)
unfolding checked_priority
checked_priority-Ranks none p r = λ q e. subst Ranks (ok-injective p q e) r
checked_priority-Ranks (some v) p r = ranked-Ranks v

module _ (repr_float : Float → Text) (task : Task) (fits : IsTask task) (due : Option Stamp)
    (payload : Value) (key priority : Option Value) (now : Instant) where
  -- A run for the task, waiting, due when it was asked for, with the arguments as they are written.
  abbrev pub IsBuilt : Run → Type 0
  IsBuilt run =
      IsCoherent run
      × Ranks run.priority
      × KeyFits run.key
      × (pos 1 ≤ℤ run.max_attempts)
      × (scheduled due ≡ ok run.due_at)
      × (as_written repr_float payload ≡ ok run.payload)
      × (run.max_attempts ≤ℤ pos attempt_limit)
      × KeyIs key run.key
      × (run.name ≡ task.name)
      × (run.queue ≡ task.queue)
      × (run.max_attempts ≡ task.max_attempts)

  -- What `build` makes for a task that passed the gate agrees with itself the way the store's
  -- invariant asks, with a priority that names a lane, the key that was asked for, which fits its
  -- column, the instant that was asked for in utc, the arguments as every store reads them back, and
  -- the name, the queue and the attempts of the task, of which there is at least one and no more than
  -- the limit.
  pub build-IsBuilt :
      (run : Run) → build repr_float task due payload key priority now ≡ ok run → IsBuilt run
  unfolding build
  build-IsBuilt = >>=-Ensures {P = IsBuilt} (checked_key key) _ λ k key_fits.
      >>=-Ensures {P = IsBuilt} (checked_priority priority task.priority) _ λ p ranks.
        >>=-Ensures {P = IsBuilt} (scheduled due) _ λ moment at.
          >>=-Ensures {P = IsBuilt} (as_written repr_float payload) _ λ arguments written run e.
            subst IsBuilt (ok-injective _ run e) (
              (refl, refl, refl, refl, omega arith),
              checked_priority-Ranks priority task.priority fits.priority_fits p ranks,
              checked_key-KeyFits key k key_fits,
              fits.tried.0,
              at,
              written,
              fits.tried.1,
              checked_key-KeyIs key k key_fits,
              refl,
              refl,
              refl,
            )
