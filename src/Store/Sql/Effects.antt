-- ===== src/Store/Sql/Effects.antt =====
-- What each statement does to the rows, and what a transaction may do to each number.
use queuefy.Prelude.{
  ℕ, ◌<◌, ◌≡◌, refl, sym, ap, subst, ◌∙◌, inl, inr, ◌⊎◌, true, not, Bool-cases, Option-cases, List,
  All-keep,
}
use queuefy.Prelude.Assoc.{lookup, keep-Distinct, lookup-keep, such}
use queuefy.Prelude.Updates.{
  changed_where, lookup-change_where, change_where-Distinct, change_where_keys,
}
use queuefy.Run.{Run, pending, same_status}
use queuefy.Store.Memory.Rows.{Entry, MemoryStore, get}
use queuefy.Store.Memory.Life.{Call, Row, Change, same, changes, frees}
use queuefy.Store.Memory.Invariant.Numbers.{Numbered}
use queuefy.Store.Sql.Engine.{Engine, IsSql, Condition}
use queuefy.Store.Sql.Contention.{Tried, did, raised, Fault, Verdict, refusal, driver, Server}
use queuefy.Store.Sql.Contention.Tries.{IsWhole, Loses}

-- What holds of a table and of what a body makes of it holds after the transaction, however it ends.
pub IsWhole_table :
    {T : Type 0} {A : Type 0} (P : T → Type 0) (body : T → T × A) (vs : List Verdict) (t : T)
    (x : Server T × Tried A)
    → IsWhole body vs t x
    → P t
    → P (body t).0
    → P x.0.table
IsWhole_table P body vs t x (_, inl (e, _)) p q = subst P (sym e) q
IsWhole_table P body vs t x (_, inr (inl (_, e, _))) p q = subst P (sym e) p
IsWhole_table P body vs t x (_, inr (inr (e, _, _))) p q = subst P (sym e) q

-- A call that answers what the memory store would have left its rows as the memory store would have;
-- one that raises left them as they were, or, where an answer was lost among the verdicts, left them
-- so as well and raises the error of the driver.
abbrev pub IsLike :
    {T : Type 0} {A : Type 0} (e : Engine T)
    → List Verdict
    → MemoryStore
    → MemoryStore × A
    → Server T × Tried A
    → Type 0
IsLike e vs s memory (w, outcome) =
    ((e.rows w.table ≡ memory.0) × (outcome ≡ did memory.1))
    ⊎ ((fault : Fault) × (e.rows w.table ≡ s) × (outcome ≡ raised fault))
    ⊎ ((e.rows w.table ≡ memory.0) × (outcome ≡ raised (refusal driver)) × Loses vs)

-- Among more verdicts, as many answers may be lost.
pub IsLike-widen :
    {T : Type 0} {A : Type 0} (e : Engine T) (vs vs' : List Verdict) (s : MemoryStore)
    (m : MemoryStore × A) (x : Server T × Tried A)
    → (Loses vs → Loses vs')
    → IsLike e vs s m x
    → IsLike e vs' s m x
IsLike-widen e vs vs' s m x fewer (inl h) = inl h
IsLike-widen e vs vs' s m x fewer (inr (inl h)) = inr (inl h)
IsLike-widen e vs vs' s m x fewer (inr (inr (rows, raises, l))) = inr (inr (rows, raises, fewer l))

module _ {T : Type 0} (e : Engine T) (law : IsSql e) where
  pub get-update :
      (c : Condition) (f : Run → Run) (t : T) (i : ℕ)
      → get (e.rows (e.update c f t).0) i ≡ changed_where c f i (get (e.rows t) i)
  unfolding get
  get-update c f t i =
      ap (λ s. lookup i s.runs) (law.update_rows c f t) ∙ lookup-change_where c f i (e.rows t).runs

  pub sequence-update :
      (c : Condition) (f : Run → Run) (t : T)
      → (e.rows (e.update c f t).0).sequence ≡ (e.rows t).sequence
  sequence-update c f t = ap (λ s. s.sequence) (law.update_rows c f t)

  pub update-Numbered :
      (c : Condition) (f : Run → Run) (t : T)
      → Numbered (e.rows t)
      → Numbered (e.rows (e.update c f t).0)
  update-Numbered c f t n = subst Numbered (sym (law.update_rows c f t)) (record {
    distinct = change_where-Distinct c f (e.rows t).runs n.distinct;
    below = change_where_keys (λ k. k < (e.rows t).sequence) c f (e.rows t).runs n.below;
  })

  pub get-delete :
      (c : Condition) (t : T) (i : ℕ)
      → Numbered (e.rows t)
      → get (e.rows (e.delete c t).0) i ≡ such (λ x. not (c x.0 x.1)) i (get (e.rows t) i)
  unfolding get
  get-delete c t i n =
      ap (λ s. lookup i s.runs) (law.delete_rows c t)
      ∙ lookup-keep (λ x. not (c x.0 x.1)) i (e.rows t).runs n.distinct

  pub delete-Numbered :
      (c : Condition) (t : T) → Numbered (e.rows t) → Numbered (e.rows (e.delete c t).0)
  delete-Numbered c t n = subst Numbered (sym (law.delete_rows c t)) (record {
    distinct = keep-Distinct (λ x. not (c x.0 x.1)) (e.rows t).runs n.distinct;
    below =
        All-keep (λ (x : Entry). x.0 < (e.rows t).sequence) (λ x. not (c x.0 x.1)) (e.rows t).runs
          n.below;
  })

  -- A write makes a change of the relation to each row that its condition names.
  pub update-Row :
      (c : Condition) (f : Run → Run) (t : T) (call : Call) (i : ℕ)
      → ((r : Run)
          → c i r ≡ true
          → Change r (f r) × (same_status (f r).status pending ≡ true → frees call i r ≡ true))
      → Row (e.rows t) call i (get (e.rows (e.update c f t).0) i)
  update-Row c f t call i changing = elim (Option-cases (get (e.rows t) i)) [
    | inl absent ↦ same (get-update c f t i ∙ rw absent refl)
    | inr (r, here) ↦ elim (Bool-cases (c i r)) [
      | inl meant ↦
          let (change, back) = changing r meant in
          changes r (f r) here (get-update c f t i ∙ rw (here, meant) refl) change back
      | inr other ↦ same (get-update c f t i ∙ rw (here, other) refl)
    ]
  ]
