-- ===== src/Store/Redis/Tests.antt =====
-- The theorems of the store over redis at concrete inputs.
mod Plain
use queuefy.Prelude.{
  zero, suc, sym, ◌∙◌, arith, Bool, Bool-cases, inl, inr, true, ◌&&◌, if◌then◌else◌, ◌≤◌, ℕ, ◌≡◌,
  ◌≢◌, ◌⊎◌, refl, false, Option, none, some, List, [], ◌∷◌, All, length,
}
use queuefy.Prelude.Int.{ℤ, pos, negsuc, ◌≤ℤ◌, ◌+ℤ◌}
use queuefy.Prelude.Text.{Text, codes, ◌==◌ as text_eq}
use queuefy.Prelude.Assoc.{lookup, put}
use queuefy.Errors.{ok}
use queuefy.Value.{Value, float, ratio, null, dict, end}
use queuefy.Run.{Run, fresh, same_status, pending, running, done, failed, is_settled}
use queuefy.Store.Memory.Rows.{empty, get}
use queuefy.Store.Memory.Claiming.{serves}
use queuefy.Store.Memory.Life.{
  Call, adds, claims, completes, releases, reclaims, purges, cancels, give_back, frees,
}
use queuefy.Store.Contract.History.{after}
use queuefy.Store.Sql.Writing.Alike.{memory_asked}
use queuefy.Store.Redis.Places.{Place, same_place, lane, leased, settled, stamp, as_read}
use queuefy.Store.Redis.Hashes.{Texts, IsPrinted, to_run, to_hash, to_run-to_hash}
use queuefy.Store.Redis.Commands.{Keyspace, rescored}
use queuefy.Store.Redis.Kept.{IsKept}
use queuefy.Store.Redis.Reads.{find, count}
use queuefy.Store.Redis.Writing.{add}
use queuefy.Store.Redis.Writing.Alike.{IsAlike}
use queuefy.Store.Redis.Writing.Asked.{redis_asked, redis_asked-IsAlike}
use queuefy.Store.Redis.Writing.Insert.{IsPlain}
use queuefy.Store.Redis.Writing.Keys.{IsAdded, redis_add-IsAdded}
use queuefy.Store.Redis.Claiming.{claim}
use queuefy.Store.Redis.Claiming.Progress.{Peopled, claim_first}
use queuefy.Store.Redis.Claiming.Rows.{IsClaiming}
use queuefy.Store.Redis.Claiming.Loop.{claim-IsClaiming}
use queuefy.Store.Redis.Calls.{perform, IsSpoken, IsPerformed, perform-IsPerformed}
use queuefy.Store.Redis.Calls.Kept.{
  redis_contract, IsEmpty, empty-IsKept, redis_history-IsKept, redis_ended_stays, redis_claim_once,
}
use queuefy.Store.Redis.Tests.Plain.{plain, plain-IsRedis}

abbrev nothing : Keyspace
nothing = record { rows = empty; score = λ p i. none; names = λ key. none; levels = λ queue. [] }

nothing-IsEmpty : IsEmpty nothing
nothing-IsEmpty = record { rows = refl; score = λ p i. refl }

abbrev ann : Text
ann = codes "ann"

abbrev default_queue : Text
default_queue = codes "default"

abbrev mail : Run
mail = record (fresh (codes "mail") 10) { key = some (codes "k") }

-- A run of a higher priority that came due later.
abbrev urgent : Run
urgent = record (fresh (codes "urgent") 15) { priority = pos 5 }

abbrev two : Keyspace
two = perform plain (perform plain nothing (adds mail)) (adds urgent)

abbrev held_one : Keyspace
held_one = perform plain two (claims ann (default_queue ∷ []) 1 60 20)

two_wait : two.score (lane default_queue (pos 0)) 1 ≡ some (stamp 10)
unfolding perform get lookup empty put ◌+ℤ◌
two_wait = refl

add_again : add plain mail two ≡ (two, none)
unfolding add perform
add_again = refl

-- The higher priority is taken first, out of its lane and into the leases.
urgent_taken :
    (get held_one.rows 2
      ≡ some (record urgent {
        id = some 2;
        status = running;
        worker = some ann;
        attempts = pos 1;
        started_at = some 20;
        lease_until = some 80;
      }))
    × (held_one.score leased 2 ≡ some (stamp 80))
    × (held_one.score (lane default_queue (pos 5)) 2 ≡ none)
unfolding perform get lookup empty put ◌+ℤ◌
urgent_taken = (refl, refl, refl)

-- A lease is taken back past its end and not at it.
taken_back_late :
    ((perform plain held_one (reclaims 80)).score leased 2 ≡ some (stamp 80))
    × ((perform plain held_one (reclaims 81)).score settled 2 ≡ some (stamp 81))
unfolding perform get lookup empty put ◌+ℤ◌
taken_back_late = (refl, refl)

counts :
    (count plain none none held_one ≡ 2)
    × (count plain (some pending) (some default_queue) held_one ≡ 1)
unfolding perform count get lookup empty put same_status ◌+ℤ◌ text_eq
counts = (refl, refl)

named : find plain (codes "k") two ≡ get two.rows 1
unfolding perform find get lookup empty put
named = refl

ann_plain : ann ≢ []
ann_plain = λ e. cc

mail-IsPlain : IsPlain mail
mail-IsPlain = record { key = refl; worker = refl; error = refl; error_type = refl }

urgent-IsPlain : IsPlain urgent
urgent-IsPlain = record { key = refl; worker = refl; error = refl; error_type = refl }

nothing_kept : IsKept (λ x. x) nothing
nothing_kept = empty-IsKept (λ x. x) nothing nothing-IsEmpty

two_kept : IsKept (λ x. x) two
two_kept =
    let one = perform plain nothing (adds mail) in
    let v =
      (perform-IsPerformed plain plain-IsRedis nothing nothing_kept (adds mail)
        mail-IsPlain).kept in
    (perform-IsPerformed plain plain-IsRedis one v (adds urgent) urgent-IsPlain).kept

held_kept : IsKept (λ x. x) held_one
held_kept =
    (perform-IsPerformed plain plain-IsRedis two two_kept (claims ann (default_queue ∷ []) 1 60 20)
      ann_plain).kept

perform-IsPerformed_example :
    IsPerformed plain held_one (reclaims 81) (perform plain held_one (reclaims 81))
perform-IsPerformed_example =
    perform-IsPerformed plain plain-IsRedis held_one held_kept (reclaims 81) tt

redis_history-IsKept_example :
    IsKept
      (λ x. x)
      (after
        (redis_contract plain plain-IsRedis)
        nothing
        (adds mail ∷ claims ann (default_queue ∷ []) 1 60 20 ∷ reclaims 81 ∷ []))
redis_history-IsKept_example =
    redis_history-IsKept plain plain-IsRedis nothing
      (adds mail ∷ claims ann (default_queue ∷ []) 1 60 20 ∷ reclaims 81 ∷ []) nothing-IsEmpty
      (mail-IsPlain, (ann_plain, (tt, tt)))

redis_asked-IsAlike_example :
    IsAlike plain
      (memory_asked held_one.rows 2 ann (pos 1) (give_back 90 (codes "busy") (codes "Busy")))
      (redis_asked plain 2 ann (pos 1) (give_back 90 (codes "busy") (codes "Busy")) held_one)
redis_asked-IsAlike_example =
    redis_asked-IsAlike plain plain-IsRedis 2 held_one ann (pos 1)
      (give_back 90 (codes "busy") (codes "Busy")) ann_plain (λ e. cc, λ e. cc) held_kept

redis_add-IsAdded_example : IsAdded plain mail two (add plain mail two)
redis_add-IsAdded_example = redis_add-IsAdded plain plain-IsRedis mail mail-IsPlain two two_kept

claim-IsClaiming_example :
    IsClaiming plain plain-IsRedis ann 60 20 ann_plain two.rows 1
      (claim plain ann 60 20 (default_queue ∷ []) 1 two).1
      (claim plain ann 60 20 (default_queue ∷ []) 1 two).0
claim-IsClaiming_example =
    claim-IsClaiming plain plain-IsRedis ann 60 20 ann_plain (default_queue ∷ []) 1 two two_kept

abbrev taken_run : Run
taken_run = record urgent {
  id = some 2;
  status = running;
  worker = some ann;
  attempts = pos 1;
  started_at = some 20;
  lease_until = some 80;
}

redis_claim_once_example :
    get
      (claim plain ann 60 90
        (default_queue ∷ [])
        3
        (after (redis_contract plain plain-IsRedis) held_one (cancels 1 30 ∷ []))).0.rows
      2
    ≡ get (after (redis_contract plain plain-IsRedis) held_one (cancels 1 30 ∷ [])).rows 2
unfolding frees same_status
redis_claim_once_example =
    redis_claim_once plain plain-IsRedis held_one (cancels 1 30 ∷ []) 2 taken_run ann
      (default_queue ∷ []) 3 60 90 held_kept (tt, tt) urgent_taken.0 refl (λ a h. refl, tt)
      ann_plain

-- A printer of whole numbers, and of the values that the run below carries.
abbrev printed : ℤ → Text
printed (pos n) = n ∷ []
printed (negsuc n) = 45 ∷ n ∷ []

abbrev scanned : Text → ℤ
scanned (n ∷ []) = pos n
scanned (c ∷ n ∷ []) = negsuc n
scanned _ = pos 0

abbrev printed_value : Value → Text
printed_value (float (ratio n d)) = d ∷ printed n
printed_value v = codes "{}"

abbrev scanned_value : Text → Value
scanned_value (d ∷ t) = float (ratio (scanned t) d)
scanned_value [] = null

abbrev printed_id : Option ℕ → Text
printed_id none = codes "None"
printed_id (some i) = i ∷ []

abbrev scanned_id : Text → Option ℕ
scanned_id (i ∷ []) = some i
scanned_id _ = none

abbrev texts : Texts
texts = record {
  str_id = printed_id;
  id_of = scanned_id;
  str_int = printed;
  int_of = scanned;
  str_float = printed_value;
  float_of = scanned_value;
  dumps = λ v. codes "{}";
  loads = λ t. dict end;
}

printed_ints : (n : ℤ) → (printed n ≢ []) × (scanned (printed n) ≡ n)
printed_ints (pos n) = (λ e. cc, refl)
printed_ints (negsuc n) = (λ e. cc, refl)

to_run-to_hash_example : to_run texts (to_hash texts taken_run) ≡ ok (as_read taken_run)
to_run-to_hash_example = to_run-to_hash texts taken_run (record {
  ints = printed_ints;
  id = refl;
  payload = refl;
  timeout = tt;
  retry_delay = refl;
  max_retry_delay = refl;
  result = tt;
})

nothing_at_0 : (p : Place) → two.score p 0 ≡ none
unfolding perform empty
nothing_at_0 p = elim (Bool-cases (same_place p (lane default_queue (pos 5)))) [
  | inl this ↦ rw this (at_0 (same_place p (lane default_queue (pos 0))))
  | inr other ↦ rw other (at_0 (same_place p (lane default_queue (pos 0))))
]
  where
    at_0 : (b : Bool) → (if b && false then some (stamp 10) else none) ≡ none
    at_0 true = refl
    at_0 false = refl

two-Peopled : Peopled two
unfolding perform get lookup empty put
two-Peopled queue level zero y here =
    let never : none ≡ some y = sym (nothing_at_0 (lane queue level)) ∙ here in absurd (cc)
two-Peopled queue level (suc zero) y here = (record mail { id = some 1 }, refl)
two-Peopled queue level (suc (suc zero)) y here = (record urgent { id = some 2 }, refl)
two-Peopled queue level (suc (suc (suc i))) y here =
    let never : none ≡ some y =
      sym (two_kept.unseen (lane queue level) (suc (suc (suc i))) (omega arith)) ∙ here in
    absurd (cc)

two_there : get two.rows 1 ≡ some (record mail { id = some 1 })
unfolding perform get lookup empty
two_there = refl

claim_first_example :
    (x : Run) × (rest : List Run) × ((claim plain ann 60 20 (default_queue ∷ []) 1 two).1
      ≡ x ∷ rest)
    × (pos 0 ≤ℤ x.priority)
unfolding same_status serves text_eq stamp
claim_first_example =
    claim_first plain plain-IsRedis ann 60 20 ann_plain two two_kept two-Peopled
      (default_queue ∷ []) 1 1 (record mail { id = some 1 }) (omega arith) two_there refl refl refl
