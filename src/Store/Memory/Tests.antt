-- ===== src/Store/Memory/Tests.antt =====
-- A small store, and the theorems of the memory store at concrete inputs.
use mathlib.Core.List.Memᴰ.{head}
use queuefy.Prelude.{◌≡◌, refl, ◌⊎◌, none, some, List, [], ◌∷◌, arith, All, map}
use mathlib.Core.Option.{some-injective}
use queuefy.Prelude.Int.{pos, ◌+ℤ◌}
use queuefy.Prelude.Text.{Text, codes, ◌==◌ as text_eq}
use queuefy.Prelude.Assoc.{lookup, put, put_each, remove_each}
use queuefy.Run.{Run, fresh, pending, same_status, is_settled, exhausted}
use queuefy.Store.Memory.Rows.{Entry, MemoryStore, empty, get, add, taken, first, find}
use queuefy.Store.Memory.Claiming.{
  before, insert, sort, ready, claimable, claim, claim_loop, started, serves,
}
use queuefy.Store.Memory.Claiming.Exact.{picked}
use queuefy.Store.Memory.Claiming.Answered.{Earlier, claim_in_order}
use queuefy.Store.Memory.Holding.{
  holds, held, on_held, complete, completed, fail, gave_up, release, retry_later, requeue, requeued,
}
use queuefy.Store.Memory.Holding.Attempts.{claim_accounting}
use queuefy.Store.Memory.Sweeping.{
  expired, taken_back, abandoned, reclaim, over_before, gone, purge,
}
use queuefy.Store.Memory.Life.{Call, adds, claims, completes, reclaims, purges, step, Row, frees}
use queuefy.Store.Memory.Life.Steps.{step-Row}
use queuefy.Store.Memory.Invariant.{IsWellFormed, Admissible, step-IsWellFormed}
use queuefy.Store.Memory.History.{after, history-IsWellFormed}
use queuefy.Store.Memory.History.Final.{settled_forever, IsRefused, complete_once}
use queuefy.Store.Memory.History.Exclusive.{claim_once}

abbrev mail : Text
mail = codes "mail"

abbrev ann : Text
ann = codes "ann"

abbrev default_queue : Text
default_queue = codes "default"

abbrev plain : Run
plain = record (fresh mail 10) { key = some (codes "k") }

abbrev urgent : Run
urgent = record (fresh mail 20) { priority = pos 5 }

abbrev calls : List Call
calls = adds plain ∷ adds urgent ∷ adds (fresh mail 900) ∷ []

abbrev shop : MemoryStore
shop = after empty calls

program : Unit {0}
unfolding after step empty add taken get first find before insert sort ready claimable claim
    claim_loop started serves holds held on_held complete completed fail gave_up release retry_later
    requeue requeued expired taken_back abandoned reclaim over_before gone purge exhausted
    is_settled same_status frees ◌+ℤ◌ lookup put put_each remove_each text_eq
program = tt

blank : All Admissible calls
blank = (
  (refl, refl, refl, refl, omega arith),
  ((refl, refl, refl, refl, omega arith), ((refl, refl, refl, refl, omega arith), tt)),
)

shop-IsWellFormed : IsWellFormed shop
shop-IsWellFormed = history-IsWellFormed calls blank

urgent_first : map (λ (e : Entry). e.0) (picked shop (default_queue ∷ []) 2 100) ≡ 2 ∷ 1 ∷ []
unfolding program
urgent_first = refl

key_refused : (add shop plain).1 ≡ none
unfolding program
key_refused = refl

abbrev stored : Run
stored = record urgent { id = some 2 }

abbrev bob : Text
bob = codes "bob"

abbrev asked : List Call
asked = claims bob (default_queue ∷ []) 5 50 110 ∷ reclaims 120 ∷ []

abbrev one_claimed : MemoryStore
one_claimed = (claim shop ann (default_queue ∷ []) 1 50 100).0

claim_once_example :
    All
      (λ x. ¬ (x.id ≡ some 2))
      (claim (after one_claimed asked) bob (default_queue ∷ []) 5 50 130).1
unfolding program
claim_once_example =
    claim_once shop asked 2 (started ann 50 100 stored) ann bob (default_queue ∷ [])
      (default_queue ∷ []) 1 5 50 50 100 130 shop-IsWellFormed (tt, (tt, tt)) (head refl) refl
      (λ a h. refl, (λ a h. rw (← some-injective _ a h) refl, omega arith))

one_claimed-IsWellFormed : IsWellFormed one_claimed
unfolding step
one_claimed-IsWellFormed =
    step-IsWellFormed shop (claims ann (default_queue ∷ []) 1 50 100) shop-IsWellFormed tt

complete_once_example :
    IsRefused (after (complete one_claimed 2 ann (pos 1) 130 none).0 asked) 2 ann (pos 1)
unfolding program
complete_once_example =
    complete_once one_claimed asked 2 ann ann (pos 1) (pos 1) 130 none one_claimed-IsWellFormed
      (tt, (tt, tt)) refl

abbrev closed : MemoryStore
closed = (complete one_claimed 2 ann (pos 1) 130 none).0

abbrev ended : Run
unfolding completed started
ended = completed 130 none (started ann 50 100 stored)

closed-IsWellFormed : IsWellFormed closed
unfolding step
closed-IsWellFormed =
    step-IsWellFormed one_claimed (completes 2 ann (pos 1) 130 none) one_claimed-IsWellFormed tt

settled_forever_example :
    (get (after closed asked) 2 ≡ some ended) ⊎ (get (after closed asked) 2 ≡ none)
unfolding program
settled_forever_example =
    settled_forever closed asked 2 ended closed-IsWellFormed (tt, (tt, tt)) refl refl

step-Row_example : Row closed (purges 131 5) 2 (get (step closed (purges 131 5)) 2)
unfolding program
step-Row_example =
    step-Row closed (purges 131 5) 2 closed-IsWellFormed.numbered.distinct
      closed-IsWellFormed.numbered.below

step-IsWellFormed_example : IsWellFormed (step closed (purges 131 5))
step-IsWellFormed_example = step-IsWellFormed closed (purges 131 5) closed-IsWellFormed tt

claim_in_order_example :
    All
      (Earlier shop ann
        (default_queue ∷ [])
        1
        50
        100
        shop-IsWellFormed
        1
        (record plain { id = some 1 }))
      (claim shop ann (default_queue ∷ []) 1 50 100).1
unfolding program
claim_in_order_example =
    claim_in_order shop ann (default_queue ∷ []) 1 50 100 shop-IsWellFormed 1
      (record plain { id = some 1 }) refl refl refl (omega arith) refl

claim_accounting_example :
    ((b : Run) × (get (release one_claimed 2 ann (pos 1) 400 mail mail).0 2 ≡ some b)
      × (b.status ≡ pending)
      × (b.due_at ≡ 400)
      × (b.attempts ≡ pos 0))
    × ((b : Run) × (get (retry_later one_claimed 2 ann (pos 1) 400 mail mail).0 2 ≡ some b)
        × (b.status ≡ pending)
        × (b.due_at ≡ 400)
        × (b.attempts ≡ pos 1))
unfolding program
claim_accounting_example =
    claim_accounting shop ann (default_queue ∷ []) 1 50 100 2 stored 400 mail mail
      shop-IsWellFormed.numbered.distinct refl

abbrev held_by_ann : Run
unfolding started
held_by_ann = started ann 50 100 stored
