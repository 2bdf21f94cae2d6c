-- ===== src/Store/Sql/Claiming/Held.antt =====
-- What a claim answers with is what it took: nothing that it took is left out, whatever breaks.

use queuefy.Prelude.{
  ℕ, ◌≡◌, refl, sym, subst, ◌∙◌, inl, inr, ◌⊎◌, Bool, true, false, ◌&&◌, some, List, [], ◌∷◌, ◌++◌,
  arith, ◌==◌, leb, Bool-cases, Option-cases, ==_iff, ==_refl, All, All-snoc, All-Mem, All-map,
}
use mathlib.Core.List.{Memᴰ}
use mathlib.Core.List.Memᴰ.{head, append_left, append_right}
use mathlib.Core.Option.{some-injective}
use queuefy.Prelude.Text.{Text}
use queuefy.Prelude.Updates.{changed_where}
use queuefy.Run.{Run, Instant, pending, same_status}
use queuefy.Store.Memory.Rows.{MemoryStore, get}
use queuefy.Store.Memory.Claiming.{started}
use queuefy.Store.Memory.Invariant.Numbers.{Numbered}
use queuefy.Store.Sql.Engine.{Engine, IsSql}
use queuefy.Store.Sql.Claiming.{taken_where, taken_values, take_body, with_taken}
use queuefy.Store.Sql.Effects.{get-update, update-Numbered}
use queuefy.Store.Sql.Writing.Alike.{update-none, update-one}

module _ {T : Type 0} (e : Engine T) (law : IsSql e) (worker : Text) (lease : ℕ)
    (moment : Instant) where
  -- A run that waited and was due in the first store, and stands in the second as this claim took it.
  abbrev pub WasTaken : MemoryStore → MemoryStore → Run → Type 0
  WasTaken s s' r =
      (i : ℕ) × (a : Run) × (get s i ≡ some a)
      × (same_status a.status pending && leb a.due_at moment ≡ true)
      × (r ≡ started worker lease moment a)
      × (get s' i ≡ some r)

  -- The runs in hand are those that the claim took, and every other number is as it was.
  pub record InHand (s : MemoryStore) (taken : List Run) (s' : MemoryStore) : Type 0 where
    pub numbered : Numbered s'
    pub rows : (i : ℕ) → (get s' i ≡ get s i) ⊎ ((r : Run) × (get s' i ≡ some r) × Memᴰ r taken)
    pub held : All (WasTaken s s') taken

  may_take : Run → Bool
  may_take r = same_status r.status pending && leb r.due_at moment

  runs_not_taken : (a : Run) → may_take (started worker lease moment a) ≡ false
  unfolding may_take started same_status
  runs_not_taken a = refl

  module _ (s : MemoryStore) (taken : List Run) (id : ℕ) (t : T) (h : InHand s taken (e.rows t))
      (v : Run) (here : get (e.rows t) id ≡ some v) (may : may_take v ≡ true) where
    -- A row that can be taken is not in hand yet: it stands as it did when the claim began.
    as_it_was : get s id ≡ some v
    as_it_was = elim (h.rows id) [
      | inl same ↦ sym same ∙ here
      | inr (r, there, member) ↦
          let (i, a, _, _, this, _) = All-Mem (WasTaken s (e.rows t)) r taken h.held member in
          let v_is : v ≡ started worker lease moment a =
            some-injective v r (sym here ∙ there) ∙ this in
          let never : may_take v ≡ false =
            subst (λ x. may_take x ≡ false) (sym v_is) (runs_not_taken a) in
          absurd (cc)
    ]

    -- What the table is once the row is taken.
    row_taken :
        (t' : T)
        → Numbered (e.rows t')
        → ((i : ℕ)
            → get (e.rows t') i
              ≡ changed_where
                  (taken_where id moment)
                  (taken_values worker lease moment)
                  i
                  (get (e.rows t) i))
        → InHand s (taken ++ started worker lease moment v ∷ []) (e.rows t')
    unfolding taken_where taken_values started same_status may_take
    row_taken t' n after =
        let new : get (e.rows t') id ≡ some (started worker lease moment v) =
          after id ∙ rw here (ground (arith, may)) in
        record {
          numbered = n;
          rows = λ i. elim (Bool-cases (i == id)) [
            | inl this ↦ inr (
              started worker lease moment v,
              rw ((==_iff i id).0 this) new,
              append_right taken (head refl),
            )
            | inr other ↦
                let still : get (e.rows t') i ≡ get (e.rows t) i =
                  after i ∙ elim (Option-cases (get (e.rows t) i)) [
                    | inl absent ↦ rw absent refl
                    | inr (r, there) ↦ rw there (rw other refl)
                  ] in
                elim (h.rows i) [
                  | inl same ↦ inl (still ∙ same)
                  | inr (r, there, member) ↦
                      inr
                        (r, still ∙ there, append_left (started worker lease moment v ∷ []) member)
                ]
          ];
          held =
              All-snoc (WasTaken s (e.rows t')) (started worker lease moment v) taken
                (All-map
                  (λ r (i, a, was, could, this, there).
                    (i, a, was, could, this, after i ∙ rw (there, this) (ground arith)))
                  taken h.held)
                (id, v, as_it_was, may, refl, new);
        }

  -- A table with the same rows is as good.
  pub same_rows :
      (s s' s'' : MemoryStore) (taken : List Run)
      → s'' ≡ s'
      → InHand s taken s'
      → InHand s taken s''
  same_rows s s' s'' taken same h = subst (InHand s taken) (sym same) h

  pub take_body-InHand :
      (s : MemoryStore) (taken : List Run) (id : ℕ) (t : T)
      → InHand s taken (e.rows t)
      → InHand s
          (with_taken e worker lease moment taken (take_body e worker lease moment id t).1)
          (e.rows (take_body e worker lease moment id t).0)
  unfolding take_body taken_where may_take started taken_values
  take_body-InHand s taken id t h =
      let c = taken_where id moment in
      let f = taken_values worker lease moment in
      let t' = (e.update c f t).0 in
      elim (Option-cases (get (e.rows t) id)) [
        | inl nothing ↦
            let (rows, count) = update-none e law id may_take f t h.numbered nothing in
            rw count (same_rows s (e.rows t) (e.rows t') taken rows h)
        | inr (v, here) ↦
            let (rows, count) = update-one e law id may_take f t h.numbered v here in
            elim (Bool-cases (may_take v)) [
              | inl may ↦
                  let n = update-Numbered e law c f t h.numbered in
                  let after = λ (i : ℕ). get-update e law c f t i in
                  let read_back : e.read id t' ≡ some (started worker lease moment v) =
                    law.read_row id t' ∙ after id ∙ rw here (rw (may, ==_refl id) refl) in
                  rw (count, may, read_back) (row_taken s taken id t h v here may t' n after)
              | inr not_now ↦
                  rw (count, not_now)
                    (same_rows s (e.rows t) (e.rows t') taken (rows ∙ rw not_now refl) h)
            ]
      ]
