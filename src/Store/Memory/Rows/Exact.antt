-- ===== src/Store/Memory/Rows/Exact.antt =====
-- What `add` writes, and what `find` answers.
use queuefy.Prelude.{
  ℕ, ◌<◌, ◌≡◌, refl, inl, inr, Bool, true, false, none, some, List, [], ◌∷◌, arith, ◌==◌,
  if◌then◌else◌, Bool-cases, Option-cases, ◌↔◌, any, All,
}
use queuefy.Prelude.Text.{Text, eq_refl}
use queuefy.Prelude.Assoc.{lookup, lookup-append, lookup_past}
use queuefy.Run.{Run}
use queuefy.Store.Memory.Rows.{Entry, MemoryStore, get, add, taken, key_of, first, find}

-- The run as `add` writes it, under the next number.
abbrev pub written : MemoryStore → Run → Run
written s run = record run { id = some s.sequence }

abbrev pub Below : MemoryStore → Type 0
Below s = All (λ (e : Entry). e.0 < s.sequence) s.runs

pub get-sequence : (s : MemoryStore) → Below s → get s s.sequence ≡ none
unfolding get
get-sequence s b = lookup_past s.sequence s.sequence s.runs b refl

-- A run whose key is free is written under the next number, and no other run changes.
pub get-add :
    (s : MemoryStore) (run : Run) (i : ℕ)
    → Below s
    → get (add s run).0 i ≡ (
        if taken s run.key
        then get s i
        else (if s.sequence == i then some (written s run) else get s i))
unfolding add get lookup
get-add s run i b = elim (Bool-cases (taken s run.key)) [
  | inl full ↦ rw full
  | inr free ↦ rw free (
      ground (
        arith,
        lookup-append i s.runs ((s.sequence, written s run) ∷ []),
        lookup_past s.sequence i s.runs b,
      ))
]

-- The answer of `find`, when there is one, is a run of the store under that key.
first-true :
    (test : Entry → Bool) (es : List Entry) (r : Run) → first test es ≡ some r → any test es ≡ true
unfolding first
first-true test [] r e = cc
first-true test (x ∷ es) r e = ground (arith, first-true test es r)

first-none : (test : Entry → Bool) (es : List Entry) → first test es ≡ none → any test es ≡ false
unfolding first
first-none test [] e = refl
first-none test (x ∷ es) e = ground (arith, first-none test es)

-- A key is refused as taken exactly when `find` answers with a run.
pub taken-find :
    (s : MemoryStore) (k : Text) → (taken s (some k) ≡ true) ↔ ((r : Run) × (find s k ≡ some r))
unfolding taken find
taken-find s k = (
  λ t. elim (Option-cases (first (key_of k) s.runs)) [
    | inl absent ↦ absurd (ground (arith, first-none (key_of k) s.runs))
    | inr here ↦ here
  ],
  λ (r, e). first-true (key_of k) s.runs r e,
)

any-key :
    (k : Text) (i : ℕ) (r : Run) (m : List Entry)
    → lookup i m ≡ some r
    → r.key ≡ some k
    → any (key_of k) m ≡ true
unfolding lookup
any-key k i r [] e h = cc
any-key k i r ((j, x) ∷ m) e h = ground (arith, any-key k i r m, eq_refl k)

-- The key of a run of the store is taken.
pub taken-get :
    (s : MemoryStore) (i : ℕ) (r : Run) (k : Text)
    → get s i ≡ some r
    → r.key ≡ some k
    → taken s (some k) ≡ true
unfolding taken get
taken-get s i r k e h = any-key k i r s.runs e h
