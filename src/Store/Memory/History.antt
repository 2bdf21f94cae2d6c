-- ===== src/Store/Memory/History.antt =====
-- What a run may go through over any history of calls.
pub mod Final
pub mod Exclusive
use queuefy.Prelude.{
  ℕ, ◌<◌, ◌≤◌, suc, ◌≡◌, refl, sym, ap, ◌∙◌, inl, inr, ◌⊎◌, Bool, true, false, none, some, List, [],
  Option, ◌∷◌, ◌++◌, arith, ◌==◌, if◌then◌else◌, Bool-cases, Option-cases, ==_iff, All,
}
use mathlib.Core.Option.{some-injective}
use queuefy.Prelude.Int.{ℤ}
use queuefy.Prelude.Text.{Text}
use queuefy.Prelude.Assoc.{lookup, lookup-All, Distinct}
use queuefy.Value.{Value}
use queuefy.Run.{Run, Instant, pending, running, same_status, is_settled}
use queuefy.Store.Memory.Rows.{Entry, MemoryStore, empty, get, add, taken}
use queuefy.Store.Memory.Rows.Exact.{Below}
use queuefy.Store.Memory.Claiming.{claim, claimable, started}
use queuefy.Store.Memory.Claiming.Exact.{picked, picked-claimable, get-claim}
use queuefy.Store.Memory.Holding.{
  holds, held, on_held, heartbeat, complete, fail, retry_later, release, requeue,
}
use queuefy.Store.Memory.Holding.Exact.{held_iff, get-on_held, on_held_cases}
use queuefy.Store.Memory.Sweeping.{expired, reclaim, cancel, purge}
use queuefy.Store.Memory.Sweeping.Exact.{cancel_cases}
use queuefy.Store.Memory.Life.{
  Call, adds, claims, beats, completes, fails, retries, releases, cancels, step, Change, claimed,
  acted, lapsed, withdrawn, Row, same, changes, appears, drops, frees,
}
use queuefy.Store.Memory.Life.Steps.{step-Row}
use queuefy.Store.Contract.{Contract}
use queuefy.Store.Contract.History.{
  All-any, after as contract_after, after-IsWellFormed as contract_after-IsWellFormed,
}
use queuefy.Store.Memory.Invariant.Numbers.{Numbered, step-Numbered}
use queuefy.Store.Memory.Invariant.{IsWellFormed, Admissible, step-IsWellFormed}

sequence-add : (s : MemoryStore) (run : Run) → s.sequence ≤ (add s run).0.sequence
unfolding add
sequence-add s run = ground arith

sequence-on_held :
    (f : Run → Run) (s : MemoryStore) (id : ℕ) (worker : Text) (attempt : ℤ)
    → (on_held f s id worker attempt).0.sequence ≡ s.sequence
sequence-on_held f s id worker attempt = elim (on_held_cases f s id worker attempt) [
  | inl (run, _, e) ↦ rw e
  | inr (_, e) ↦ rw e
]

sequence-cancel :
    (s : MemoryStore) (id : ℕ) (moment : Instant) → (cancel s id moment).0.sequence ≡ s.sequence
sequence-cancel s id moment = elim (cancel_cases s id moment) [
  | inl (run, _, _, e) ↦ rw e
  | inr e ↦ rw e
]

-- Numbers are given in order and never again.
pub sequence-step : (s : MemoryStore) (c : Call) → s.sequence ≤ (step s c).sequence
unfolding step claim reclaim purge heartbeat complete fail retry_later release requeue
sequence-step s (adds run) = sequence-add s run
sequence-step s (cancels id moment) = omega (arith, sequence-cancel s id moment)
sequence-step s (beats id worker attempt lease moment) =
    omega (arith, sequence-on_held _ s id worker attempt)
sequence-step s (completes id worker attempt moment result) =
    omega (arith, sequence-on_held _ s id worker attempt)
sequence-step s (fails id worker attempt moment error kind) =
    omega (arith, sequence-on_held _ s id worker attempt)
sequence-step s (retries id worker attempt due_at error kind) =
    omega (arith, sequence-on_held _ s id worker attempt)
sequence-step s (releases id worker attempt due_at error kind) =
    omega (arith, sequence-on_held _ s id worker attempt)
sequence-step s _ = omega arith

-- The memory store keeps the contract of every store.
abbrev pub memory_contract : Contract MemoryStore
memory_contract = record {
  view = λ s. s;
  next = step;
  IsSound = Numbered;
  Takes = λ c. Unit;
  numbered = λ s n. n;
  stays = λ s c n takes. step-Numbered s c n;
  grows = λ s c n takes. sequence-step s c;
  changes = λ s c n takes. (s.sequence, omega arith, λ i. step-Row s c i n.distinct n.below);
}

unfoldable pub after : MemoryStore → List Call → MemoryStore
unfolding contract_after
after = contract_after memory_contract

pub after-IsWellFormed :
    (s : MemoryStore) (cs : List Call)
    → IsWellFormed s
    → All Admissible cs
    → IsWellFormed (after s cs)
unfolding after
after-IsWellFormed s cs v ok =
    contract_after-IsWellFormed memory_contract s cs v.numbered (All-any cs) v ok

pub empty-IsWellFormed : IsWellFormed empty
unfolding empty get lookup
empty-IsWellFormed = record {
  numbered = record { distinct = tt; below = tt };
  named = λ i r h. absurd (cc);
  coherent = λ i r h. absurd (cc);
  single = λ i j a b k ha hb ka kb. absurd (cc);
}

-- Whatever is asked of a store that begins empty, it stays well formed.
pub history-IsWellFormed : (cs : List Call) → All Admissible cs → IsWellFormed (after empty cs)
history-IsWellFormed cs ok = after-IsWellFormed empty cs empty-IsWellFormed ok
