-- ===== src/Store/Sql/Writing/Alike.antt =====
-- A conditional write of one row leaves and answers what the memory store would have.
use queuefy.Prelude.{
  ℕ, ◌≡◌, refl, ap, ◌∙◌, inl, inr, Bool, true, false, ◌&&◌, none, some, arith, ◌==◌, if◌then◌else◌,
  Bool-cases, Option-cases, length,
}
use queuefy.Prelude.Int.{ℤ, ◌==ℤ◌}
use queuefy.Prelude.Text.{Text, is_some_eq}
use queuefy.Prelude.Assoc.{put}
use queuefy.Prelude.Updates.{change_where-none, change_where-put, keep-none, length-keep-one}
use queuefy.Run.{Run, Instant, pending, running, same_status}
use queuefy.Store.Memory.Rows.{MemoryStore, get}
use queuefy.Store.Memory.Holding.{
  holds, held, on_held, heartbeat, complete, fail, requeue, retry_later, release, extended,
  completed, gave_up, requeued,
}
use queuefy.Store.Memory.Holding.Exact.{on_held_cases}
use queuefy.Store.Memory.Sweeping.{cancel}
use queuefy.Store.Memory.Life.{Act, extend, close, give_up, put_back, give_back}
use queuefy.Store.Memory.Invariant.Numbers.{Numbered}
use queuefy.Store.Sql.Engine.{Engine, IsSql, Condition}
use queuefy.Store.Sql.Contention.{did, Server}
use queuefy.Store.Sql.Contention.Tries.{under_contention-IsWhole}
use queuefy.Store.Sql.Effects.{IsLike}
use queuefy.Store.Sql.Writing.{
  Asked, holding, waiting_row, pushed, closed, ended, sent_back, given_back, dropped, write,
  write_body, heartbeat as sql_heartbeat, complete as sql_complete, fail as sql_fail,
  retry_later as sql_retry_later, release as sql_release, cancel as sql_cancel,
}
use queuefy.Store.Sql.Writing.Rows.{sent_back_lem}

module _ {T : Type 0} (e : Engine T) (law : IsSql e) (id : ℕ) (p : Run → Bool) (f : Run → Run)
    (t : T) (n : Numbered (e.rows t)) where
  abbrev one_row : Condition
  one_row = λ i r. i == id && p r

  -- A statement that names no row writes nothing.
  pub update-none :
      get (e.rows t) id ≡ none
      → (e.rows (e.update one_row f t).0 ≡ e.rows t) × ((e.update one_row f t).1 ≡ 0)
  unfolding get
  update-none absent = (
    law.update_rows one_row f t
        ∙ ap (λ runs. record (e.rows t) { runs = runs })
            (change_where-none (λ i. p) f id (e.rows t).runs absent),
    law.update_count one_row f t ∙ ap length (keep-none (λ i. p) id (e.rows t).runs absent),
  )

  -- A statement that names one row writes it where the condition holds of it.
  pub update-one :
      (v : Run)
      → get (e.rows t) id ≡ some v
      → (e.rows (e.update one_row f t).0 ≡ record (e.rows t) {
        runs = if p v then put id (f v) (e.rows t).runs else (e.rows t).runs;
      })
        × ((e.update one_row f t).1 ≡ (if p v then 1 else 0))
  unfolding get
  update-one v here = (
    law.update_rows one_row f t
        ∙ ap (λ runs. record (e.rows t) { runs = runs })
            (change_where-put (λ i. p) f id v (e.rows t).runs n.distinct here),
    law.update_count one_row f t ∙ length-keep-one (λ i. p) id v (e.rows t).runs n.distinct here,
  )

module _ {T : Type 0} (e : Engine T) (law : IsSql e) (w : Server T)
    (n : Numbered (e.rows w.table)) where
  -- What a conditional write comes to, from what its body comes to.
  pub write-IsLike :
      (c : Condition) (f : Run → Run) (m : MemoryStore × Bool)
      → (e.rows (write_body e c f w.table).0 ≡ m.0)
      → ((write_body e c f w.table).1 ≡ m.1)
      → IsLike e w.verdicts (e.rows w.table) m (write e c f w)
  unfolding write
  write-IsLike c f m rows answer =
      let (_, whole) = under_contention-IsWhole (write_body e c f) w in
      elim whole [
        | inl (table, outcome) ↦ inl (ap e.rows table ∙ rows, outcome ∙ ap did answer)
        | inr (inl (fault, table, outcome)) ↦ inr (inl (fault, ap e.rows table, outcome))
        | inr (inr (table, outcome, loses)) ↦ inr (inr (ap e.rows table ∙ rows, outcome, loses))
      ]

  not_held :
      (worker : Text) (attempt : ℤ) (id : ℕ) (v : Run)
      → held (e.rows w.table) id worker attempt ≡ none
      → get (e.rows w.table) id ≡ some v
      → is_some_eq v.worker worker && (v.attempts ==ℤ attempt && same_status v.status running)
        ≡ false
  unfolding held holds same_status
  not_held worker attempt id v absent here = ground arith

  held_row :
      (worker : Text) (attempt : ℤ) (v : Run)
      → holds v worker attempt ≡ true
      → is_some_eq v.worker worker && (v.attempts ==ℤ attempt && same_status v.status running)
        ≡ true
  unfolding holds same_status
  held_row worker attempt v h = ground arith

  on_held-IsLike :
      (id : ℕ) (worker : Text) (attempt : ℤ) (f g : Run → Run)
      → ((r : Run) → f r ≡ g r)
      → IsLike e w.verdicts
          (e.rows w.table)
          (on_held g (e.rows w.table) id worker attempt)
          (write e (holding id worker attempt) f w)
  unfolding holding write_body same_status
  on_held-IsLike id worker attempt f g agree =
      let p : Run → Bool = λ r.
        is_some_eq r.worker worker && (r.attempts ==ℤ attempt && same_status r.status running) in
      elim (on_held_cases g (e.rows w.table) id worker attempt) [
        | inl (run, (here, holder), this) ↦
            let (rows, count) = update-one e law id p f w.table n run here in
            let fits = held_row worker attempt run holder in
            write-IsLike (holding id worker attempt) f
              (on_held g (e.rows w.table) id worker attempt)
              (rows ∙ rw (this, fits, agree run) refl) (rw (count, this, fits) refl)
        | inr (absent, this) ↦ elim (Option-cases (get (e.rows w.table) id)) [
          | inl nothing ↦
              let (rows, count) = update-none e law id p f w.table n nothing in
              write-IsLike (holding id worker attempt) f
                (on_held g (e.rows w.table) id worker attempt) (rows ∙ rw this refl)
                (rw (count, this) refl)
          | inr (run, here) ↦
              let (rows, count) = update-one e law id p f w.table n run here in
              let misfits = not_held worker attempt id run absent here in
              write-IsLike (holding id worker attempt) f
                (on_held g (e.rows w.table) id worker attempt) (rows ∙ rw (this, misfits) refl)
                (rw (count, this, misfits) refl)
        ]
      ]

  cancel-IsLike :
      (id : ℕ) (moment : Instant)
      → IsLike e w.verdicts
          (e.rows w.table)
          (cancel (e.rows w.table) id moment)
          (sql_cancel e id moment w)
  unfolding sql_cancel waiting_row dropped write_body cancel
  cancel-IsLike id moment =
      let p : Run → Bool = λ r. same_status r.status pending in
      let through =
        write-IsLike (waiting_row id) (dropped moment) (cancel (e.rows w.table) id moment) in
      elim (Option-cases (get (e.rows w.table) id)) [
        | inl nothing ↦
            let (rows, count) = update-none e law id p (dropped moment) w.table n nothing in
            through (rows ∙ rw (nothing, cancel) refl) (rw (count, nothing, cancel) refl)
        | inr (run, here) ↦
            let (rows, count) = update-one e law id p (dropped moment) w.table n run here in
            elim (Bool-cases (same_status run.status pending)) [
              | inl waits ↦
                  through (rows ∙ rw (here, cancel) (rw waits refl))
                    (rw (count, here, cancel) (rw waits refl))
              | inr other ↦
                  through (rows ∙ rw (here, cancel) (rw other refl))
                    (rw (count, here, cancel) (rw other refl))
            ]
      ]

-- The method of a store that an attempt calls for what it wants of its run.
abbrev pub sql_asked : {T : Type 0} (e : Engine T) → ℕ → Text → ℤ → Act → Asked e Bool
sql_asked e id worker attempt (extend lease moment) = sql_heartbeat e id worker attempt lease moment
sql_asked e id worker attempt (close moment result) = sql_complete e id worker attempt moment result
sql_asked e id worker attempt (give_up moment error kind) =
    sql_fail e id worker attempt moment error kind
sql_asked e id worker attempt (put_back due_at error kind) =
    sql_retry_later e id worker attempt due_at error kind
sql_asked e id worker attempt (give_back due_at error kind) =
    sql_release e id worker attempt due_at error kind

abbrev pub memory_asked : MemoryStore → ℕ → Text → ℤ → Act → MemoryStore × Bool
memory_asked s id worker attempt (extend lease moment) = heartbeat s id worker attempt lease moment
memory_asked s id worker attempt (close moment result) = complete s id worker attempt moment result
memory_asked s id worker attempt (give_up moment error kind) =
    fail s id worker attempt moment error kind
memory_asked s id worker attempt (put_back due_at error kind) =
    retry_later s id worker attempt due_at error kind
memory_asked s id worker attempt (give_back due_at error kind) =
    release s id worker attempt due_at error kind

-- What an attempt asks over a table whose numbers are distinct, of any of the five methods, leaves
-- the rows and gives the answer that the memory store would; where it raises, the rows are as they
-- were, or, where an answer was lost after its commit, as the memory store would leave them.
pub sql_asked-IsLike :
    {T : Type 0} (e : Engine T) (law : IsSql e) (w : Server T) (id : ℕ) (worker : Text)
    (attempt : ℤ) (x : Act)
    → Numbered (e.rows w.table)
    → IsLike e w.verdicts
        (e.rows w.table)
        (memory_asked (e.rows w.table) id worker attempt x)
        (sql_asked e id worker attempt x w)
unfolding sql_heartbeat sql_complete sql_fail sql_retry_later sql_release heartbeat complete fail
    retry_later release requeue pushed closed ended given_back sent_back extended completed gave_up
    requeued
sql_asked-IsLike e law w id worker attempt (extend lease moment) n =
    on_held-IsLike e law w n id worker attempt (pushed lease moment) (extended lease moment)
      λ r. refl
sql_asked-IsLike e law w id worker attempt (close moment result) n =
    on_held-IsLike e law w n id worker attempt (closed moment result) (completed moment result)
      λ r. refl
sql_asked-IsLike e law w id worker attempt (give_up moment error kind) n =
    on_held-IsLike e law w n id worker attempt (ended moment error kind) (gave_up moment error kind)
      λ r. refl
sql_asked-IsLike e law w id worker attempt (put_back due_at error kind) n =
    on_held-IsLike e law w n id worker attempt (sent_back due_at error kind) _
      (sent_back_lem due_at error kind)
sql_asked-IsLike e law w id worker attempt (give_back due_at error kind) n =
    on_held-IsLike e law w n id worker attempt (given_back due_at error kind) _ λ r. refl
