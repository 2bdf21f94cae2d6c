-- ===== src/Worker/Start/Ready.antt =====
-- A worker that was built can claim: its name and its queues fit, and it has room.
use queuefy.Prelude.{
  ◌-◌, ◌≤◌, ◌≡◌, refl, subst, Bool, true, false, not, List, [], ◌∷◌, arith, All, take, length,
  length-append, length-take,
}
use queuefy.Prelude.Int.{ℤ, pos, pos_part, ltb_ℤ, ◌≤ℤ◌}
use queuefy.Prelude.Text.{Text}
use queuefy.Errors.{raise_if, queue_error, Ensures, >>=-Ensures, ok-injective}
use queuefy.Value.{Value, Items, nil, cons, list, tuple}
use queuefy.Run.{Instant}
use queuefy.Store.Base.{worker_name_limit, queue_limit}
use queuefy.Clock.{Handed, timedelta, no_span, real, spanned, is_over, is_under}
use queuefy.App.Guards.{holdable, whole}
use queuefy.App.Registry.Gate.{Fits, holdable-Fits}
use queuefy.App.Recurring.{Written}
use queuefy.Worker.Passes.{Worker}
use queuefy.Worker.Passes.Kept.{HasRoom}
use queuefy.Worker.Start.{
  worker_name, queues_of, served, Asked, checked_lease, checked_keep, name_or, span_part, start,
}

-- A name that a worker draws for itself fits its column and keeps the draw whole at its end.
pub worker_name-Fits :
    (host tail : Text)
    → length tail ≤ worker_name_limit
    → Fits worker_name_limit (worker_name host tail)
unfolding worker_name
worker_name-Fits host tail l = omega (
  arith,
  length-append (take (worker_name_limit - length tail) host) tail,
  length-take (worker_name_limit - length tail) host,
  l,
)

-- At least one queue, each of which fits its column.
abbrev pub Serves : List Text → Type 0
Serves queues = (1 ≤ length queues) × All (Fits queue_limit) queues

queues_of-Fit : (items : Items) → Ensures (All (Fits queue_limit)) (queues_of items)
unfolding queues_of
queues_of-Fit nil = λ queues e. subst (All (Fits queue_limit)) (ok-injective [] queues e) tt
queues_of-Fit (cons v items) =
    >>=-Ensures {P = All (Fits queue_limit)} (holdable v queue_limit) _ λ queue fits.
      >>=-Ensures {P = All (Fits queue_limit)} (queues_of items) _ λ rest read queues e.
        subst (All (Fits queue_limit)) (ok-injective (queue ∷ rest) queues e)
          (holdable-Fits v queue_limit queue fits, queues_of-Fit items rest read)

queues_of-Serves : (v : Value) (items : Items) → Ensures Serves (queues_of (cons v items))
unfolding queues_of
queues_of-Serves v items = >>=-Ensures {P = Serves} (holdable v queue_limit) _ λ queue fits.
    >>=-Ensures {P = Serves} (queues_of items) _ λ rest read queues e.
      subst Serves (ok-injective (queue ∷ rest) queues e)
        (omega arith, (holdable-Fits v queue_limit queue fits, queues_of-Fit items rest read))

served-Serves : (v : Value) → Ensures Serves (served v)
unfolding served
served-Serves (tuple (cons v items)) = queues_of-Serves v items
served-Serves (list (cons v items)) = queues_of-Serves v items
served-Serves _ = λ queues e. absurd (cc)

raise_if-false : (b : Bool) → Ensures {A = Unit {0}} (λ u. b ≡ false) (raise_if b queue_error)
raise_if-false true = λ u e. absurd (cc)
raise_if-false false = λ u e. refl

module _ (total_seconds : ℤ → Value)
    (ahead : (n : ℤ) → is_over (total_seconds n) (pos 0) ≡ true → pos 1 ≤ℤ n) (own_name : Text)
    (drawn : ℤ) (now : Instant) (written : Written) where
  checked_lease-ahead :
      (lease : Handed)
      → Ensures
          (λ _. 1 ≤ span_part lease)
          (checked_lease total_seconds own_name drawn now written lease)
  unfolding checked_lease spanned
  checked_lease-ahead no_span = λ u e. absurd (cc)
  checked_lease-ahead (timedelta n) =
      >>=-Ensures {P = λ _. 1 ≤ pos_part n}
        (raise_if (not (is_over (total_seconds n) (pos 0))) queue_error) _
        λ passed through last e.
          let forward : not (is_over (total_seconds n) (pos 0)) ≡ false =
            raise_if-false _ passed through in
          ground (arith, ahead n, forward)

  -- A worker that can claim: its name and its queues fit their columns, there is a queue, its lease
  -- has not run out where it begins, its poll is a wait, and it has room for a run.
  abbrev pub IsReady : Worker → Type 0
  IsReady w =
      Fits worker_name_limit w.name
      × Serves w.queues
      × (1 ≤ w.lease)
      × (is_over w.poll (pos 0) ≡ true)
      × (1 ≤ w.concurrency)
      × HasRoom w

  -- Where only a span of time ahead comes to seconds above 0, every worker that `__init__` builds is
  -- one that can claim: its name and queues fit their columns, it serves at least one, its lease and
  -- its poll are above 0, and it has room for at least one run.
  pub start-IsReady :
      (asked : Asked) → Ensures IsReady (start total_seconds own_name drawn now written asked)
  unfolding start
  start-IsReady asked =
      >>=-Ensures {P = IsReady} (checked_lease total_seconds own_name drawn now written asked.lease)
        _
        λ u leased. >>=-Ensures {P = IsReady} (real asked.poll) _ λ _ _.
          >>=-Ensures {P = IsReady} (raise_if (not (is_over asked.poll (pos 0))) queue_error) _
            λ waits polls. >>=-Ensures {P = IsReady} (whole asked.concurrency) _ λ n _.
              >>=-Ensures {P = IsReady} (raise_if (ltb_ℤ n (pos 1)) queue_error) _ λ some_room room.
                >>=-Ensures {P = IsReady} (served asked.queues) _ λ queues serves.
                  >>=-Ensures {P = IsReady} (real asked.grace) _ λ _ _.
                    >>=-Ensures {P = IsReady} (raise_if (is_under asked.grace (pos 0)) queue_error)
                      _
                      λ _ _. >>=-Ensures {P = IsReady} (real asked.jitter) _ λ _ _.
                        >>=-Ensures {P = IsReady}
                          (raise_if (is_under asked.jitter (pos 0)) queue_error) _
                          λ _ _.
                            >>=-Ensures {P = IsReady}
                              (checked_keep total_seconds own_name drawn now written asked.keep) _
                              λ _ _.
                                >>=-Ensures {P = IsReady}
                                  (holdable
                                    (name_or total_seconds own_name drawn now written asked.name)
                                    worker_name_limit)
                                  _
                                  λ name fits w e.
                                    let polls' = raise_if-false _ waits polls in
                                    let room' = raise_if-false _ some_room room in
                                    let forward : is_over asked.poll (pos 0) ≡ true =
                                      ground (arith, polls') in
                                    let enough : 1 ≤ pos_part n = ground (arith, room') in
                                    subst IsReady (ok-injective _ w e) (
                                      holdable-Fits
                                          (name_or total_seconds own_name drawn now written
                                            asked.name)
                                          worker_name_limit name fits,
                                      served-Serves asked.queues queues serves,
                                      checked_lease-ahead asked.lease u leased,
                                      forward,
                                      enough,
                                      omega (arith, enough),
                                    )
