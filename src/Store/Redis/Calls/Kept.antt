-- ===== src/Store/Redis/Calls/Kept.antt =====
-- The contract of the store over redis, and what it brings over every history of calls.
use queuefy.Prelude.{
  arith, ℕ, ◌≡◌, ◌≢◌, sym, ap, ◌∙◌, inl, inr, ◌⊎◌, true, false, none, some, List, [], All,
}
use mathlib.Core.Option.{some-injective}
use queuefy.Prelude.Int.{ℤ}
use queuefy.Prelude.Text.{Text}
use queuefy.Prelude.Assoc.{lookup}
use queuefy.Run.{Run, Instant, pending, same_status, is_settled}
use queuefy.Store.Memory.Rows.{empty, get}
use queuefy.Store.Memory.Life.{Call}
use queuefy.Store.Contract.{Contract}
use queuefy.Store.Contract.History.{
  after, after-IsSound, settled_stays, after-IsTaken, Quiet, get-Below,
}
use queuefy.Store.Redis.Places.{Place}
use queuefy.Store.Redis.Commands.{Keyspace, Commands, IsRedis}
use queuefy.Store.Redis.Kept.{IsKept}
use queuefy.Store.Redis.Claiming.{claim}
use queuefy.Store.Redis.Claiming.Loop.{claim-IsClaiming}
use queuefy.Store.Redis.Calls.{perform, perform-IsPerformed, IsSpoken}

abbrev pub redis_contract : {T : Type 0} (e : Commands T) → IsRedis e → Contract T
redis_contract e law = record {
  view = λ t. (e.look t).rows;
  next = perform e;
  IsSound = λ t. IsKept e.number (e.look t);
  Takes = IsSpoken;
  numbered = λ t v. v.numbered;
  stays = λ t c v spoken. (perform-IsPerformed e law t v c spoken).kept;
  grows = λ t c v spoken. (perform-IsPerformed e law t v c spoken).sequence;
  changes = λ t c v spoken.
      ((e.look t).rows.sequence, omega arith, (perform-IsPerformed e law t v c spoken).rows);
}

-- No run, and no number in any set.
pub record IsEmpty (k : Keyspace) : Type 0 where
  pub rows : k.rows ≡ empty
  pub score : (p : Place) (i : ℕ) → k.score p i ≡ none

pub empty-IsKept : (number : ℤ → ℤ) (k : Keyspace) → IsEmpty k → IsKept number k
unfolding empty get lookup
empty-IsKept number k h = record {
  numbered = rw h.rows (record { distinct = tt; below = tt });
  fits = λ i r there.
      let never : none ≡ some r = ap (λ s. get s i) (sym h.rows) ∙ there in absurd (cc);
  unseen = λ p i past. h.score p i;
}

module _ {T : Type 0} (e : Commands T) (law : IsRedis e) where
  -- Whatever is asked of keys that begin empty, in calls that are spoken: a run waits in the set that
  -- `waiting_in` names, under the score of its instant, and in no other set; its key is reserved for
  -- it alone; its priority is listed for its queue; and no set holds a number that was not given.
  pub redis_history-IsKept :
      (t : T) (cs : List Call)
      → IsEmpty (e.look t)
      → All IsSpoken cs
      → IsKept e.number (e.look (after (redis_contract e law) t cs))
  redis_history-IsKept t cs begins spoken =
      after-IsSound (redis_contract e law) t cs (empty-IsKept e.number (e.look t) begins) spoken

  -- A run that is over stays as it ended, whatever is asked of redis in calls that are spoken, or its
  -- number names no run any more.
  pub redis_ended_stays :
      (t : T) (cs : List Call) (i : ℕ) (a : Run)
      → IsKept e.number (e.look t)
      → All IsSpoken cs
      → get (e.look t).rows i ≡ some a
      → is_settled a.status ≡ true
      → (get (e.look (after (redis_contract e law) t cs)).rows i ≡ some a)
        ⊎ (get (e.look (after (redis_contract e law) t cs)).rows i ≡ none)
  redis_ended_stays t cs i a v spoken here over =
      settled_stays (redis_contract e law) t cs i a v spoken here over

  -- A run that waits no more, as after a claim, is taken by no later claim of any worker, over any
  -- history of spoken calls in which neither its holder puts it back nor a reclaim finds its lease run
  -- out: the claim leaves it as it is.
  pub redis_claim_once :
      (t : T) (cs : List Call) (i : ℕ) (a : Run) (worker : Text) (queues : List Text)
      (limit lease : ℕ) (moment : Instant)
      → IsKept e.number (e.look t)
      → All IsSpoken cs
      → get (e.look t).rows i ≡ some a
      → same_status a.status pending ≡ false
      → Quiet (redis_contract e law) t cs i
      → worker ≢ []
      → get
          (e.look
            (claim e worker lease moment queues limit (after (redis_contract e law) t cs)).0).rows
          i
        ≡ get (e.look (after (redis_contract e law) t cs)).rows i
  redis_claim_once t cs i a worker queues limit lease moment v spoken here out quiet plain =
      let k = redis_contract e law in
      let t' = after k t cs in
      let stands =
        after-IsTaken k t cs i v spoken
          (
            get-Below (e.look t).rows i a v.numbered.below here,
            λ b h. still_out b (some-injective a b (sym here ∙ h)),
          )
          quiet in
      let v' = after-IsSound k t cs v spoken in
      let u = claim-IsClaiming e law worker lease moment plain queues limit t' v' in
      elim (u.underway.rows i) [
        | inl as_was ↦ as_was
        | inr (r, there, waiting, this) ↦
            let never : false ≡ true = sym (stands.1 r there) ∙ waiting in absurd (cc)
      ]
    where
      still_out : (b : Run) → a ≡ b → same_status b.status pending ≡ false
      still_out b one = rw (← one) out
