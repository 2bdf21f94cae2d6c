-- ===== src/Store/Redis/Claiming/Top.antt =====
-- The first run that CLAIM of src/queuefy/store/redis.py takes, while it goes on.
use queuefy.Prelude.{
  ℕ, ◌≡◌, ap, inl, inr, Bool, true, false, none, some, Option, List, [], ◌∷◌, ◌++◌, leb, length,
  Bool-cases,
}
use queuefy.Prelude.Int.{ℤ}
use queuefy.Prelude.Text.{Text}
use queuefy.Run.{Run, Instant}
use queuefy.Store.Redis.Places.{lane}
use queuefy.Store.Redis.Commands.{Commands}
use queuefy.Store.Redis.Claiming.{
  Waiting, with_run, begin, begin_if, if_removed, take, take_each, take_levels, sort_waiting, ready,
}

-- What is taken begins with a run of a priority.
abbrev pub HasTop : ℤ → List Run → Type 0
HasTop level taken = (x : Run) × (rest : List Run) × (taken ≡ x ∷ rest) × (x.priority ≡ level)

-- The first that was taken stays the first.
module _ {T : Type 0} (e : Commands T) (worker : Text) (lease : ℕ) (moment : Instant)
    (level : ℤ) where
  with_run-HasTop :
      (taken : List Run) (o : Option Run) → HasTop level taken → HasTop level (with_run taken o)
  with_run-HasTop taken none h = h
  with_run-HasTop taken (some r) (x, rest, begins, top) =
      (x, rest ++ r ∷ [], ap (λ l. l ++ r ∷ []) begins, top)

  begin_if-HasTop :
      (i : ℕ) (o : Option Run) (taken : List Run) (t : T)
      → HasTop level taken
      → HasTop level (begin_if e worker lease moment i o taken t).1
  unfolding begin_if begin
  begin_if-HasTop i none taken t h = h
  begin_if-HasTop i (some r) taken t h = with_run-HasTop taken _ h

  if_removed-HasTop :
      (i : ℕ) (taken : List Run) (x : T × Bool)
      → HasTop level taken
      → HasTop level (if_removed e worker lease moment i taken x).1
  if_removed-HasTop i taken (t, true) h = begin_if-HasTop i (e.hash i t) taken t h
  if_removed-HasTop i taken (t, false) h = h

  pub take_each-HasTop :
      (wanted : ℕ) (entries : List Waiting) (taken : List Run) (t : T)
      → HasTop level taken
      → HasTop level (take_each e worker lease moment wanted entries taken t).1
  unfolding take_each take
  take_each-HasTop wanted [] taken t h = h
  take_each-HasTop wanted (entry ∷ rest) taken t h = elim (Bool-cases (leb wanted (length taken))) [
    | inl enough ↦ rw (enough, take_each) h
    | inr more ↦
        let x = take e worker lease moment entry taken t in
        rw (more, take_each)
          (take_each-HasTop wanted rest x.1 x.0
            (if_removed-HasTop entry.id taken (e.zrem (lane entry.queue entry.level) entry.id t) h))
  ]

  pub take_levels-HasTop :
      (queues : List Text) (wanted most : ℕ) (levels : List ℤ) (taken : List Run) (t : T)
      → HasTop level taken
      → HasTop level (take_levels e worker lease moment queues wanted most levels taken t).1
  unfolding take_levels
  take_levels-HasTop queues wanted most [] taken t h = h
  take_levels-HasTop queues wanted most (l ∷ levels) taken t h =
      elim (Bool-cases (leb wanted (length taken))) [
        | inl enough ↦ rw (enough, take_levels) h
        | inr more ↦
            let entries = sort_waiting (ready e queues l moment most t) in
            let x = take_each e worker lease moment wanted entries taken t in
            rw (more, take_levels)
              (take_levels-HasTop queues wanted most levels x.1 x.0
                (take_each-HasTop wanted entries taken t h))
      ]
