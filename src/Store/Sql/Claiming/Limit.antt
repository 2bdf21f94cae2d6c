-- ===== src/Store/Sql/Claiming/Limit.antt =====
-- A claim stops at its limit.
use queuefy.Prelude.{
  ℕ, ◌*◌, ◌≢◌, ◌≤◌, length-append, inl, inr, Option, none, some, List, [], ◌∷◌, ◌++◌, arith, ◌==◌,
  length, Bool-cases, ==_iff,
}
use queuefy.Prelude.Text.{Text}
use queuefy.Run.{Run, Instant}
use queuefy.Store.Base.{claim_spread}
use queuefy.Store.Sql.Engine.{Engine}
use queuefy.Store.Sql.Contention.{Tried, did, raised, Server, transaction}
use queuefy.Store.Sql.Claiming.{ready_where, take, go_on, take_each, from_candidates, claim}

-- An answer within a limit.
abbrev pub IsWithin : {T : Type 0} → ℕ → Server T × Tried (List Run) → Type 0
IsWithin limit (w, did taken) = length taken ≤ limit
IsWithin limit (w, raised fault) = Unit

module _ {T : Type 0} (e : Engine T) (worker : Text) (lease : ℕ) (moment : Instant) where
  go_on-IsWithin :
      (limit : ℕ) (ids : List ℕ) (taken : List Run) (x : Server T × Tried (Option Run))
      → length taken ≤ limit
      → length taken ≢ limit
      → ((more : List Run) (w : Server T)
          → length more ≤ limit
          → IsWithin limit (take_each e worker lease moment limit ids more w))
      → IsWithin limit
          (go_on e worker lease moment (take_each e worker lease moment limit ids) taken x)
  go_on-IsWithin limit ids taken (w, did none) l m rest = rest taken w l
  go_on-IsWithin limit ids taken (w, did (some r)) l m rest =
      rest (taken ++ r ∷ []) w (omega (arith, length-append taken (r ∷ [])))
  go_on-IsWithin limit ids [] (w, raised f) l m rest = tt
  go_on-IsWithin limit ids (r ∷ taken) (w, raised f) l m rest = l

  take_each-IsWithin :
      (limit : ℕ) (ids : List ℕ) (taken : List Run) (w : Server T)
      → length taken ≤ limit
      → IsWithin limit (take_each e worker lease moment limit ids taken w)
  unfolding take_each
  take_each-IsWithin limit [] taken w l = l
  take_each-IsWithin limit (id ∷ ids) taken w l = elim (Bool-cases (length taken == limit)) [
    | inl full ↦ rw full l
    | inr more ↦ rw more (
        go_on-IsWithin limit ids taken (take e worker lease moment id w) l
          (ground (arith, ==_iff (length taken) limit))
          (λ further w' l'. take_each-IsWithin limit ids further w' l'))
  ]

  candidates-IsWithin :
      (limit : ℕ) (x : Server T × Tried (List ℕ))
      → IsWithin limit (from_candidates e worker lease moment limit x)
  candidates-IsWithin limit (w, did ids) = take_each-IsWithin limit ids [] w (omega arith)
  candidates-IsWithin limit (w, raised f) = tt

  -- A claim answers with no more runs than it was asked for, however many candidates it reads.
  pub claim-IsWithin :
      (queues : List Text) (limit : ℕ) (w : Server T)
      → IsWithin limit (claim e worker lease moment queues limit w)
  unfolding claim
  claim-IsWithin queues limit w =
      candidates-IsWithin limit
        (transaction (λ t. (t, e.ordered (ready_where queues moment) (limit * claim_spread) t)) w)
