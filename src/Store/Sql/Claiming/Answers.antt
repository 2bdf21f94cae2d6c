-- ===== src/Store/Sql/Claiming/Answers.antt =====
-- The answer of a claim: what it holds, or an exception with nothing held. A claim whose commit took
-- effect and was never answered holds a run that it does not know of; only its lease brings that back.
use queuefy.Prelude.{
  ℕ, ◌*◌, ◌≡◌, refl, ap, ◌∙◌, inl, inr, Option, List, [], ◌∷◌, ◌==◌, length, Bool-cases, false, any,
}
use queuefy.Prelude.Text.{Text}
use queuefy.Run.{Run, Instant}
use queuefy.Store.Base.{claim_spread}
use queuefy.Store.Memory.Rows.{MemoryStore}
use queuefy.Store.Memory.Invariant.Numbers.{Numbered}
use queuefy.Store.Sql.Engine.{Engine, IsSql}
use queuefy.Store.Sql.Contention.{Tried, did, raised, Verdict, Server, transaction}
use queuefy.Store.Sql.Contention.Tries.{
  IsWhole, Loses, is_lost, transaction-IsWhole, under_contention-IsWhole,
}
use queuefy.Store.Sql.Claiming.{
  ready_where, take_body, take, with_taken, go_on, take_each, from_candidates, claim,
}
use queuefy.Store.Sql.Claiming.Held.{InHand, same_rows, take_body-InHand}

module _ {T : Type 0} (e : Engine T) (law : IsSql e) (worker : Text) (lease : ℕ)
    (moment : Instant) where
  -- What the loop has come to: an answer is what is in hand, and only with nothing in hand it raises.
  abbrev pub IsAnswer : MemoryStore → Server T × Tried (List Run) → Type 0
  IsAnswer s (w, did taken) = InHand e law worker lease moment s taken (e.rows w.table)
  IsAnswer s (w, raised fault) = InHand e law worker lease moment s [] (e.rows w.table)

  -- One candidate: taken, passed over, or broken off with the table as it was.
  after_take :
      (s : MemoryStore) (limit id : ℕ) (ids : List ℕ) (taken : List Run) (vs : List Verdict) (t : T)
      (x : Server T × Tried (Option Run))
      → IsWhole (take_body e worker lease moment id) vs t x
      → (Loses vs → ⊥)
      → InHand e law worker lease moment s taken (e.rows t)
      → ((more : List Run) (w : Server T)
          → (Loses w.verdicts → ⊥)
          → InHand e law worker lease moment s more (e.rows w.table)
          → IsAnswer s (take_each e worker lease moment limit ids more w))
      → IsAnswer s (go_on e worker lease moment (take_each e worker lease moment limit ids) taken x)
  after_take s limit id ids taken vs t (w, did row) (kept, inl (table, answer)) never h rest =
      let body = take_body e worker lease moment id t in
      let this : row ≡ body.1 = cc in
      rest (with_taken e worker lease moment taken row) w (λ l. never (kept l))
        (rw (table, this) (take_body-InHand e law worker lease moment s taken id t h))
  after_take s limit id ids taken vs t (w, did row) (_, inr (inl (fault, table, answer))) never h
        rest =
      absurd (cc)
  after_take s limit id ids taken vs t (w, raised f) (_, inl (table, answer)) never h rest =
      absurd (cc)
  after_take s limit id ids [] vs t (w, raised f) (_, inr (inl (fault, table, answer))) never h
        rest =
      same_rows e law worker lease moment s (e.rows t) (e.rows w.table) [] (ap e.rows table) h
  after_take s limit id ids (r ∷ taken) vs t (w, raised f) (_, inr (inl (fault, table, answer)))
        never h rest =
      same_rows e law worker lease moment s (e.rows t) (e.rows w.table) (r ∷ taken)
        (ap e.rows table) h
  after_take s limit id ids taken vs t x (_, inr (inr (table, answer, l))) never h rest =
      absurd (never l)

  take_each-IsAnswer :
      (s : MemoryStore) (limit : ℕ) (ids : List ℕ) (taken : List Run) (w : Server T)
      → (Loses w.verdicts → ⊥)
      → InHand e law worker lease moment s taken (e.rows w.table)
      → IsAnswer s (take_each e worker lease moment limit ids taken w)
  unfolding take_each take
  take_each-IsAnswer s limit [] taken w never h = h
  take_each-IsAnswer s limit (id ∷ ids) taken w never h =
      elim (Bool-cases (length taken == limit)) [
        | inl full ↦ rw full h
        | inr more ↦ rw more (
            after_take s limit id ids taken w.verdicts w.table (take e worker lease moment id w)
              (under_contention-IsWhole (take_body e worker lease moment id) w) never h
              (λ further w' never' h'. take_each-IsAnswer s limit ids further w' never' h'))
      ]

  nothing_yet :
      (s s' : MemoryStore) → Numbered s → s' ≡ s → InHand e law worker lease moment s [] s'
  nothing_yet s s' n same =
      same_rows e law worker lease moment s s s' [] same
        (record { numbered = n; rows = λ i. inl refl; held = tt })

  candidates-IsAnswer :
      (s : MemoryStore) (limit : ℕ) (vs : List Verdict) (t : T) (body : T → T × List ℕ)
      (x : Server T × Tried (List ℕ))
      → IsWhole body vs t x
      → (Loses vs → ⊥)
      → Numbered (e.rows t)
      → (body t).0 ≡ t
      → IsAnswer (e.rows t) (from_candidates e worker lease moment limit x)
  candidates-IsAnswer s limit vs t body (w, did ids) (kept, inl (table, answer)) never n reads =
      take_each-IsAnswer (e.rows t) limit ids [] w (λ l. never (kept l))
        (nothing_yet (e.rows t) (e.rows w.table) n (ap e.rows (table ∙ reads)))
  candidates-IsAnswer s limit vs t body (w, did ids) (_, inr (inl (fault, table, answer))) never n
        reads =
      absurd (cc)
  candidates-IsAnswer s limit vs t body (w, raised f) (_, inl (table, answer)) never n reads =
      absurd (cc)
  candidates-IsAnswer s limit vs t body (w, raised f) (_, inr (inl (fault, table, answer))) never n
        reads =
      nothing_yet (e.rows t) (e.rows w.table) n (ap e.rows table)
  candidates-IsAnswer s limit vs t body x (_, inr (inr (table, answer, l))) never n reads =
      absurd (never l)

  -- However the database decides, so long as it loses no answer of what it committed, a claim over a
  -- table whose numbers are distinct answers with exactly what it took: each run it answers with
  -- waited and was due, and stands in the table as taken by this worker; and every number whose row
  -- it changed is answered with. Where it raises, it took nothing.
  pub claim-IsAnswer :
      (queues : List Text) (limit : ℕ) (w : Server T)
      → Numbered (e.rows w.table)
      → any is_lost w.verdicts ≡ false
      → IsAnswer (e.rows w.table) (claim e worker lease moment queues limit w)
  unfolding claim
  claim-IsAnswer queues limit w n none_lost =
      let body : T → T × List ℕ =
        λ t. (t, e.ordered (ready_where queues moment) (limit * claim_spread) t) in
      candidates-IsAnswer (e.rows w.table) limit w.verdicts w.table body (transaction body w)
        (transaction-IsWhole body w) (λ l. absurd (cc)) n refl
