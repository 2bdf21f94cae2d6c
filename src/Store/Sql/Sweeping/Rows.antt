-- ===== src/Store/Sql/Sweeping/Rows.antt =====
-- A sweep takes back only leases that ran out, each once; a pruning drops only what is over.
use queuefy.Prelude.{
  ℕ, ◌-◌, ◌≡◌, refl, sym, ap, subst, inl, inr, ◌⊎◌, true, not, Option, none, some, List, [], ◌∷◌,
  arith, Bool-cases,
}
use queuefy.Prelude.Assoc.{such}
use queuefy.Run.{Run, Instant, same_status, is_settled, exhausted}
use queuefy.Store.Base.{reclaim_batch}
use queuefy.Store.Memory.Rows.{MemoryStore, get}
use queuefy.Store.Memory.Sweeping.{expired, taken_back}
use queuefy.Store.Memory.Life.{reclaims, purges, Row, lapsed, same, changes, drops, frees}
use queuefy.Store.Memory.Invariant.Numbers.{Numbered}
use queuefy.Store.Sql.Engine.{Engine, IsSql, Condition}
use queuefy.Store.Sql.Contention.{Server}
use queuefy.Store.Sql.Contention.Tries.{under_contention-IsWhole}
use queuefy.Store.Sql.Sweeping.{
  expired_where, spent_where, left_where, spent_values, left_values, over_where, named_and,
  update_named, take_back, sweep_body, reclaim, delete_named, purge_body, purge,
}
use queuefy.Store.Sql.Effects.{IsWhole_table, get-delete, delete-Numbered}
use queuefy.Store.Contract.Underway.{IsUnderway, begun}
use queuefy.Store.Sql.Underway.{Suits, update-IsUnderway}

module _ {T : Type 0} (e : Engine T) (law : IsSql e) where
  module _ (moment : Instant) where
    abbrev pub IsSweeping : MemoryStore → MemoryStore → Type 0
    IsSweeping = IsUnderway (expired moment) (taken_back moment)

    spent-Suits :
        (ids : List ℕ)
        → Suits
            (expired moment)
            (taken_back moment)
            (named_and e ids (spent_where moment))
            (spent_values moment)
    unfolding spent_where spent_values expired_where expired taken_back exhausted same_status
    spent-Suits ids = record {
      meant = λ i r named. (ground arith, ground arith);
      once = λ i r. ground arith;
    }

    left-Suits :
        (ids : List ℕ)
        → Suits
            (expired moment)
            (taken_back moment)
            (named_and e ids (left_where moment))
            (left_values moment)
    unfolding left_where left_values expired_where expired taken_back exhausted same_status
    left-Suits ids = record {
      meant = λ i r named. (ground arith, ground arith);
      once = λ i r. ground arith;
    }

    update_named-IsSweeping :
        (c : Condition) (values : Run → Run) (ids : List ℕ) (t : T) (s : MemoryStore)
        → Suits (expired moment) (taken_back moment) (named_and e ids c) values
        → IsSweeping s (e.rows t)
        → IsSweeping s (e.rows (update_named e c values ids t).0)
    update_named-IsSweeping c values [] t s suits u = u
    update_named-IsSweeping c values (id ∷ ids) t s suits u =
        update-IsUnderway (expired moment) (taken_back moment) e law (named_and e (id ∷ ids) c)
          values t s suits u

    spent-IsSweeping :
        (size : ℕ) (t : T) (s : MemoryStore)
        → IsSweeping s (e.rows t)
        → IsSweeping s (e.rows (take_back e (spent_where moment) size (spent_values moment) t).0)
    unfolding take_back
    spent-IsSweeping size t s =
        let ids = e.batch (spent_where moment) size t in
        update_named-IsSweeping (spent_where moment) (spent_values moment) ids t s (spent-Suits ids)

    left-IsSweeping :
        (size : ℕ) (t : T) (s : MemoryStore)
        → IsSweeping s (e.rows t)
        → IsSweeping s (e.rows (take_back e (left_where moment) size (left_values moment) t).0)
    unfolding take_back
    left-IsSweeping size t s =
        let ids = e.batch (left_where moment) size t in
        update_named-IsSweeping (left_where moment) (left_values moment) ids t s (left-Suits ids)

    sweep_body-IsSweeping :
        (t : T) → Numbered (e.rows t) → IsSweeping (e.rows t) (e.rows (sweep_body e moment t).0)
    unfolding sweep_body
    sweep_body-IsSweeping t n =
        let (t1, gave_up) =
          take_back e (spent_where moment) reclaim_batch (spent_values moment) t in
        left-IsSweeping (reclaim_batch - gave_up) t1 (e.rows t) (
          spent-IsSweeping reclaim_batch t (e.rows t)
            (begun (expired moment) (taken_back moment) (e.rows t) n))

    pub reclaim-IsSweeping :
        (w : Server T)
        → Numbered (e.rows w.table)
        → IsSweeping (e.rows w.table) (e.rows (reclaim e moment w).0.table)
    unfolding reclaim
    reclaim-IsSweeping w n =
        IsWhole_table (λ t. IsSweeping (e.rows w.table) (e.rows t)) (sweep_body e moment) w.verdicts
          w.table (reclaim e moment w) (under_contention-IsWhole (sweep_body e moment) w)
          (begun (expired moment) (taken_back moment) (e.rows w.table) n)
          (sweep_body-IsSweeping w.table n)

    pub reclaim-Row :
        (w : Server T) (i : ℕ)
        → Numbered (e.rows w.table)
        → Row (e.rows w.table) (reclaims moment) i (get (e.rows (reclaim e moment w).0.table) i)
    unfolding frees
    reclaim-Row w i n = elim ((reclaim-IsSweeping w n).rows i) [
      | inl as_was ↦ same as_was
      | inr (r, here, ran_out, this) ↦
          changes r (taken_back moment r) here this (lapsed moment ran_out refl) (λ back. ran_out)
    ]

  module _ (before : Instant) where
    -- What a pruning leaves under a number: the run that was there, or none where it was over.
    abbrev Pruned : MemoryStore → ℕ → Option Run → Type 0
    Pruned s i o =
        (o ≡ get s i) ⊎ ((r : Run) × (get s i ≡ some r) × (is_settled r.status ≡ true) × (o ≡ none))

    pub record IsPruned (s s' : MemoryStore) : Type 0 where
      pub numbered : Numbered s'
      pub sequence : s'.sequence ≡ s.sequence
      pub rows : (i : ℕ) → Pruned s i (get s' i)

    such-Pruned :
        (ids : List ℕ) (s : MemoryStore) (i : ℕ) (o : Option Run)
        → get s i ≡ o
        → Pruned s i (such (λ x. not (named_and e ids (over_where before) x.0 x.1)) i o)
    unfolding over_where
    such-Pruned ids s i none here = inl (sym here)
    such-Pruned ids s i (some r) here =
        elim (Bool-cases (named_and e ids (over_where before) i r)) [
          | inl named ↦ rw named (inr (r, here, ground arith, refl))
          | inr other ↦ rw other (inl (sym here))
        ]

    delete_named-IsPruned :
        (ids : List ℕ) (t : T)
        → Numbered (e.rows t)
        → IsPruned (e.rows t) (e.rows (delete_named e (over_where before) ids t).0)
    delete_named-IsPruned [] t n = record { numbered = n; sequence = refl; rows = λ i. inl refl }
    delete_named-IsPruned (id ∷ ids) t n =
        let c = named_and e (id ∷ ids) (over_where before) in
        record {
          numbered = delete-Numbered e law c t n;
          sequence = ap (λ s. s.sequence) (law.delete_rows c t);
          rows = λ i.
              subst (Pruned (e.rows t) i) (sym (get-delete e law c t i n))
                (such-Pruned (id ∷ ids) (e.rows t) i (get (e.rows t) i) refl);
        }

    pub purge-IsPruned :
        (limit : ℕ) (w : Server T)
        → Numbered (e.rows w.table)
        → IsPruned (e.rows w.table) (e.rows (purge e before limit w).0.table)
    unfolding purge purge_body
    purge-IsPruned limit w n =
        IsWhole_table (λ t. IsPruned (e.rows w.table) (e.rows t)) (purge_body e before limit)
          w.verdicts w.table (purge e before limit w)
          (under_contention-IsWhole (purge_body e before limit) w)
          (record { numbered = n; sequence = refl; rows = λ i. inl refl })
          (delete_named-IsPruned (e.batch (over_where before) limit w.table) w.table n)

    pub purge-Row :
        (limit : ℕ) (w : Server T) (i : ℕ)
        → Numbered (e.rows w.table)
        → Row
            (e.rows w.table)
            (purges before limit)
            i
            (get (e.rows (purge e before limit w).0.table) i)
    purge-Row limit w i n = elim ((purge-IsPruned limit w n).rows i) [
      | inl as_was ↦ same as_was
      | inr (r, here, over, gone) ↦ drops r here over gone
    ]
