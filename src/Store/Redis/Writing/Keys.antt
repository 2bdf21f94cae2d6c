-- ===== src/Store/Redis/Writing/Keys.antt =====
-- A key and its run: ADD of src/queuefy/store/redis.py, whatever the key is reserved for.
use queuefy.Prelude.{
  ℕ, ◌≡◌, refl, sym, ap, subst, ◌∙◌, inl, inr, ◌⊎◌, Bool, true, false, none, some, Option, List, [],
  ◌∷◌, arith, ◌==◌, Bool-cases, any,
}
use queuefy.Prelude.Int.{ℤ}
use queuefy.Prelude.Text.{Text, is_some_eq, eq_of_test}
use queuefy.Prelude.Assoc.{lookup, Distinct}
use queuefy.Run.{Run}
use queuefy.Store.Memory.Rows.{Entry, MemoryStore, get, taken, key_of}
use queuefy.Store.Memory.Rows as Rows
use queuefy.Store.Redis.Commands.{Keyspace, renamed, is_free, Commands, IsRedis}
use queuefy.Store.Redis.Kept.{IsKept}
use queuefy.Store.Redis.Kept.Growth.{renamed-IsKept}
use queuefy.Store.Redis.Writing.{add, add_under, write_run, reserved_or}
use queuefy.Store.Redis.Writing.Added.{Unused}
use queuefy.Store.Redis.Writing.Alike.{IsAlike}
use queuefy.Store.Redis.Writing.Insert.{IsPlain, write_run-IsAlike}

-- A key that is taken is some run's.
any-lookup :
    (key : Text) (m : List Entry)
    → Distinct m
    → any (key_of key) m ≡ true
    → (i : ℕ) × (r : Run) × (lookup i m ≡ some r) × (r.key ≡ some key)
unfolding lookup
any-lookup key [] d h = absurd (cc)
any-lookup key ((j, x) ∷ m) d h = elim (Bool-cases (is_some_eq x.key key)) [
  | inl its ↦ (j, x, ground arith, of_test x.key its)
  | inr not_its ↦
      let (i, r, there, keyed) = any-lookup key m d.1 (rw not_its at h) in
      elim (Bool-cases (j == i)) [
        | inl this ↦ absurd (ground arith)
        | inr other ↦ (i, r, rw other there, keyed)
      ]
]
  where
    of_test : (k : Option Text) → is_some_eq k key ≡ true → k ≡ some key
    of_test none h' = absurd (cc)
    of_test (some k) h' = ap some (eq_of_test k key h')

module _ (number : ℤ → ℤ) (k : Keyspace) (v : IsKept number k) where
  -- A key that a run has is reserved.
  pub nobody_free :
      (key : Text) (j : ℕ) (r : Run)
      → is_free (k.names key) ≡ true
      → get k.rows j ≡ some r
      → r.key ≡ some key
      → ⊥
  nobody_free key j r unreserved there its =
      let named : k.names key ≡ some (some j) = (v.fits j r there).named key its in
      let never : false ≡ true = rw named at unreserved in cc

  pub taken_free : (key : Text) → is_free (k.names key) ≡ true → taken k.rows (some key) ≡ false
  unfolding taken get
  taken_free key unreserved = elim (Bool-cases (taken k.rows (some key))) [
    | inl has ↦
        let (j, r, there, its) = any-lookup key k.rows.runs v.numbered.distinct has in
        absurd (nobody_free key j r unreserved there its)
    | inr free ↦ free
  ]

-- The key was reserved, so nothing is written; or the run is written as the memory store writes it.
abbrev pub IsAdded : {T : Type 0} (e : Commands T) → Run → T → T × Option Run → Type 0
IsAdded e run t x =
    ((key : Text) × (run.key ≡ some key)
      × (is_free ((e.look t).names key) ≡ false)
      × (e.look x.0 ≡ e.look t)
      × (x.1 ≡ none))
    ⊎ IsAlike e (Rows.add (e.look t).rows run) x

module _ {T : Type 0} (e : Commands T) (law : IsRedis e) (run : Run) where
  reserved_or-true : (x : T × Bool) → x.1 ≡ true → reserved_or e run x ≡ write_run e run x.0
  reserved_or-true (t, true) h = refl
  reserved_or-true (t, false) h = absurd (cc)

  reserved_or-false : (x : T × Bool) → x.1 ≡ false → reserved_or e run x ≡ (x.0, none)
  reserved_or-false (t, true) h = absurd (cc)
  reserved_or-false (t, false) h = refl

  module _ (plain : IsPlain run) (t : T) (v : IsKept e.number (e.look t)) where
    under_free :
        (key : Text)
        → run.key ≡ some key
        → is_free ((e.look t).names key) ≡ true
        → IsAlike e (Rows.add (e.look t).rows run) (write_run e run (e.reserve key t).0)
    under_free key its unreserved =
        let k = e.look t in
        let t0 = (e.reserve key t).0 in
        let look0 : e.look t0 ≡ renamed key (some none) k =
          law.reserve_look key t ∙ rw unreserved refl in
        let v0 : IsKept e.number (e.look t0) = subst (IsKept e.number) (sym look0) (
          renamed-IsKept e.number key (some none) k
            (λ j r there keyed. nobody_free e.number k v key j r unreserved there keyed) v) in
        let rows0 : (e.look t0).rows ≡ k.rows = ap (λ k'. k'.rows) look0 in
        let unused : Unused e.number run (e.look t0) v0 (some key) = λ j r there keyed.
          nobody_free e.number k v key j r unreserved (ap (λ s. get s j) (sym rows0) ∙ there)
            keyed in
        let not_taken : taken (e.look t0).rows (some key) ≡ false =
          rw rows0 (taken_free e.number k v key unreserved) in
        subst (λ s. IsAlike e (Rows.add s run) (write_run e run t0)) rows0
          (write_run-IsAlike e law run plain t0 v0
            (subst (Unused e.number run (e.look t0) v0) (sym its) unused)
            (ap (taken (e.look t0).rows) its ∙ not_taken))

    under_key : (key : Option Text) → run.key ≡ key → IsAdded e run t (add_under e run key t)
    unfolding taken
    under_key none its = inr (
        write_run-IsAlike e law run plain t v
          (subst (Unused e.number run (e.look t) v) (sym its) tt) (ap (taken (e.look t).rows) its))
    under_key (some key) its = elim (Bool-cases (is_free ((e.look t).names key))) [
      | inl unreserved ↦ inr (
          subst (IsAlike e (Rows.add (e.look t).rows run))
            (sym (reserved_or-true (e.reserve key t) (law.reserve_told key t ∙ unreserved)))
            (under_free key its unreserved))
      | inr reserved ↦
          subst (IsAdded e run t)
            (sym (reserved_or-false (e.reserve key t) (law.reserve_told key t ∙ reserved)))
            (inl (key, its, reserved, law.reserve_look key t ∙ rw reserved refl, refl))
    ]

    -- Where every run waits as it should, and the run has no empty text for nothing: an add whose key
    -- is reserved answers nothing and leaves the keys as they are; any other writes and answers what
    -- the memory store does, and the new run waits where its state waits.
    pub redis_add-IsAdded : IsAdded e run t (add e run t)
    unfolding add
    redis_add-IsAdded = rw plain.key (under_key run.key refl)
