-- ===== src/App/Registry/Gate.antt =====
-- What the gate of `register` lets through.
use queuefy.Prelude.{
  ℕ, ◌≤◌, ◌≡◌, refl, sym, inl, inr, false, not, ◌&&◌, Option, none, some, [], ◌∷◌, ◌++◌, arith, ltb,
  Bool-cases, All, length, subst,
}
use queuefy.Prelude.Int.{ℤ, pos, negsuc, ◌≤ℤ◌, leb_ℤ, ltb_ℤ}
use queuefy.Prelude.Text.{Text, ◌==◌ as text_eq}
use queuefy.Errors.{ok, raise_if, queue_error, Ensures, >>=-Ensures, ok-injective}
use queuefy.Value.{Value}
use queuefy.Run.{Instant}
use queuefy.Store.Base.{task_name_limit, queue_limit, priority_limit, attempt_limit}
use queuefy.Clock.{waited, is_under, is_over}
use queuefy.Task.{Task, Declared}
use queuefy.App.Guards.{holdable, writable, whole, ranked}
use queuefy.App.Registry.{
  Tasks, Policy, named, raise_if_named, generative, policed, required, checked_timeout,
  checked_trigger, register,
}
use queuefy.App.Recurring.Twice.{Separate}

-- A task that a store can hold and a worker can try.
pub record IsTask (t : Task) : Type 0 where
  pub name_fits : length t.name ≤ task_name_limit
  pub queue_fits : length t.queue ≤ queue_limit
  pub priority_fits : (negsuc 999 ≤ℤ t.priority) × (t.priority ≤ℤ pos priority_limit)
  pub tried : (pos 1 ≤ℤ t.max_attempts) × (t.max_attempts ≤ℤ pos attempt_limit)
  pub runs_body : generative t.handler ≡ false

abbrev pub Fits : ℕ → Text → Type 0
Fits limit t = length t ≤ limit

pub holdable-Fits : (v : Value) (limit : ℕ) → Ensures (Fits limit) (holdable v limit)
unfolding holdable
holdable-Fits v limit = >>=-Ensures {P = Fits limit} (writable v) _ λ w _.
    >>=-Ensures {P = Fits limit} (raise_if (ltb limit (length w)) queue_error) _
      λ _ short t e. subst (Fits limit) (ok-injective w t e) (ground arith)

abbrev pub Ranks : ℤ → Type 0
Ranks n = (negsuc 999 ≤ℤ n) × (n ≤ℤ pos priority_limit)

pub ranked-Ranks : (v : Value) → Ensures Ranks (ranked v)
unfolding ranked
ranked-Ranks v = >>=-Ensures {P = Ranks} (whole v) _ λ n _.
    >>=-Ensures {P = Ranks}
      (raise_if (not (leb_ℤ (negsuc 999) n && leb_ℤ n (pos priority_limit))) queue_error) _
      λ _ inside m e. subst Ranks (ok-injective n m e) (ground arith)

abbrev Tried : Policy → Type 0
Tried p = (pos 1 ≤ℤ p.max_attempts) × (p.max_attempts ≤ℤ pos attempt_limit)

policed-Tried : (d : Declared) (now : Instant) → Ensures Tried (policed d now)
unfolding policed
policed-Tried d now = >>=-Ensures {P = Tried} (required d.retry_policy) _ λ policy _.
    >>=-Ensures {P = Tried} (whole d.max_attempts) _ λ n _.
      >>=-Ensures {P = Tried} (raise_if (ltb_ℤ n (pos 1)) queue_error) _ λ _ some_try.
        >>=-Ensures {P = Tried} (raise_if (ltb_ℤ (pos attempt_limit) n) queue_error) _ λ _ few.
          >>=-Ensures {P = Tried} (checked_timeout d.timeout) _ λ _ _.
            >>=-Ensures {P = Tried} (waited d.retry_delay now) _ λ _ _.
              >>=-Ensures {P = Tried} (raise_if (is_under d.retry_delay (pos 0)) queue_error) _
                λ _ _. >>=-Ensures {P = Tried} (waited d.max_retry_delay now) _ λ _ _.
                  >>=-Ensures {P = Tried}
                    (raise_if (not (is_over d.max_retry_delay (pos 0))) queue_error) _
                    λ _ _ p e. subst Tried (ok-injective _ p e) (ground arith)

-- A name that nothing is registered under is the name of no task.
named-none :
    (name : Text) (ts : Tasks) → named name ts ≡ none → All (λ t. text_eq t.name name ≡ false) ts
unfolding named
named-none name [] h = tt
named-none name (t ∷ ts) h = elim (Bool-cases (text_eq t.name name)) [
  | inl same ↦ let never : some t ≡ none = rw same at h in absurd (cc)
  | inr other ↦ (other, named-none name ts (rw other at h))
]

append-All :
    (x t : Task) (ts : Tasks)
    → text_eq x.name t.name ≡ false
    → All (λ u. text_eq x.name u.name ≡ false) ts
    → All (λ u. text_eq x.name u.name ≡ false) (ts ++ t ∷ [])
append-All x t [] h k = (h, tt)
append-All x t (u ∷ ts) h k = (k.0, append-All x t ts h k.1)

append-Separate :
    (ts : Tasks) (t : Task)
    → Separate ts
    → All (λ u. text_eq u.name t.name ≡ false) ts
    → Separate (ts ++ t ∷ [])
append-Separate [] t d u = (tt, tt)
append-Separate (x ∷ ts) t d u = (append-All x t ts u.0 d.0, append-Separate ts t d.1 u.1)

raise_if_named-ok : (o : Option Task) {u : Unit {0}} → raise_if_named o ≡ ok u → o ≡ none
raise_if_named-ok none h = refl
raise_if_named-ok (some t) h = absurd (cc)

-- The registry with one more task, which a store can hold and whose name is new.
abbrev pub Grown : Tasks → Tasks → Type 0
Grown tasks ts = (t : Task) × (ts ≡ tasks ++ t ∷ []) × IsTask t × (named t.name tasks ≡ none)

register-Grown :
    (tasks : Tasks) (d : Declared) (now : Instant) → Ensures (Grown tasks) (register tasks d now)
unfolding register
register-Grown tasks d now =
    >>=-Ensures {P = Grown tasks} (holdable d.name task_name_limit) _ λ name name_fits.
      >>=-Ensures {P = Grown tasks} (raise_if_named (named name tasks)) _ λ _ new.
        >>=-Ensures {P = Grown tasks} (holdable d.queue queue_limit) _ λ queue queue_fits.
          >>=-Ensures {P = Grown tasks} (ranked d.priority) _ λ priority ranks.
            >>=-Ensures {P = Grown tasks} (raise_if (generative d.handler) queue_error) _ λ _ plain.
              >>=-Ensures {P = Grown tasks} (policed d now) _ λ policy tried.
                >>=-Ensures {P = Grown tasks} (checked_trigger name d.trigger) _ λ trigger _ ts e. (
                  _,
                  sym (ok-injective _ ts e),
                  record {
                    name_fits = holdable-Fits d.name task_name_limit name name_fits;
                    queue_fits = holdable-Fits d.queue queue_limit queue queue_fits;
                    priority_fits = ranked-Ranks d.priority priority ranks;
                    tried = policed-Tried d now policy tried;
                    runs_body = ground arith;
                  },
                  raise_if_named-ok (named name tasks) new,
                )

-- A task that is registered is added at the end of the registry under a name that no other task has;
-- its name and its queue fit their columns, its priority names a lane, its attempts are at least one
-- and fit their column, and its handler is no generator. So names stay apart.
pub register-IsTask :
    (tasks ts : Tasks) (d : Declared) (now : Instant)
    → Separate tasks
    → register tasks d now ≡ ok ts
    → Grown tasks ts × Separate ts
register-IsTask tasks ts d now apart e =
    let (t, this, fits, new) = register-Grown tasks d now ts e in
    ((t, this, fits, new), rw this (append-Separate tasks t apart (named-none t.name tasks new)))
