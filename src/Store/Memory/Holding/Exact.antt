-- ===== src/Store/Memory/Holding/Exact.antt =====
-- What the methods of the holding attempt do: everything when it holds the run, else nothing.
use queuefy.Prelude.{
  ℕ, ◌≡◌, inl, inr, ◌⊎◌, true, false, none, some, arith, ◌==◌, if◌then◌else◌, Option-cases, ◌↔◌,
}
use queuefy.Prelude.Int.{ℤ}
use queuefy.Prelude.Text.{Text}
use queuefy.Prelude.Assoc.{lookup-put, put, changed}
use queuefy.Run.{Run}
use queuefy.Store.Memory.Rows.{MemoryStore, get}
use queuefy.Store.Memory.Holding.{holds, held, on_held}

-- Who holds a run.
abbrev pub Holds : MemoryStore → ℕ → Text → ℤ → Run → Type 0
Holds s id worker attempt run = (get s id ≡ some run) × (holds run worker attempt ≡ true)

pub held_iff :
    (s : MemoryStore) (id : ℕ) (worker : Text) (attempt : ℤ) (run : Run)
    → (held s id worker attempt ≡ some run) ↔ Holds s id worker attempt run
unfolding held
held_iff s id worker attempt run = (λ e. ground arith, λ h. ground arith)

module _ (change : Run → Run) (s : MemoryStore) (id : ℕ) (worker : Text) (attempt : ℤ) where
  -- Either the attempt holds the run, and the run alone is changed, or the store stays as it is.
  abbrev pub Taken : Type 0
  Taken =
      (run : Run) × Holds s id worker attempt run
      × (on_held change s id worker attempt
          ≡ (record s { runs = put id (change run) s.runs }, true))

  abbrev pub Refused : Type 0
  Refused = (held s id worker attempt ≡ none) × (on_held change s id worker attempt ≡ (s, false))

  pub on_held_cases : Taken ⊎ Refused
  unfolding on_held
  on_held_cases = elim (Option-cases (held s id worker attempt)) [
    | inl absent ↦ inr (absent, rw (absent, on_held))
    | inr (run, here) ↦ inl (run, (held_iff s id worker attempt run).0 here, rw (here, on_held))
  ]

  pub on_held-true :
      (on_held change s id worker attempt).1 ≡ true → (run : Run) × Holds s id worker attempt run
  on_held-true h = elim on_held_cases [
    | inl (run, h', _) ↦ (run, h')
    | inr (_, e) ↦ let never : false ≡ true = rw e at h in absurd (cc)
  ]

  -- The run of that number, if the attempt holds it, and no other is changed.
  pub get-on_held :
      (i : ℕ)
      → get (on_held change s id worker attempt).0 i
        ≡ changed change (if id == i then held s id worker attempt else none) (get s i)
  unfolding get
  get-on_held i = elim on_held_cases [
    | inl (run, h, e) ↦
        let here : held s id worker attempt ≡ some run = (held_iff s id worker attempt run).1 h in
        rw (e, here) (ground (arith, lookup-put id i (change run) s.runs))
    | inr (absent, e) ↦ rw (e, absent) (ground arith)
  ]
