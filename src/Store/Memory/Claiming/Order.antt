-- ===== src/Store/Memory/Claiming/Order.antt =====
-- The order in which `claim` looks at what is ready: `before`, and the sort by it.
use queuefy.Prelude.{
  ℕ, suc, ◌≡◌, refl, ◌∙◌, inl, inr, true, false, none, some, List, [], ◌∷◌, arith, ◌==◌,
  if◌then◌else◌, length, keep, All, Bool-cases,
}
use queuefy.Prelude.Assoc.{lookup, Distinct, such, lookup-keep, keep-Distinct}
use queuefy.Run.{Run, Instant}
use queuefy.Prelude.Text.{Text}
use queuefy.Store.Memory.Rows.{Entry, MemoryStore}
use queuefy.Store.Memory.Claiming.{before, insert, sort, ready, claimable}

-- `e` comes before every entry of a list.
abbrev pub First : Entry → List Entry → Type 0
First e = All (λ x. before e x ≡ true)

abbrev pub Ordered : List Entry → Type 0
Ordered [] = Unit
Ordered (e ∷ es) = First e es × Ordered es

pub before_total : (a b : Entry) → before a b ≡ false → before b a ≡ true
unfolding before
before_total (i, a) (j, b) h = ground arith

pub before_trans : (a b c : Entry) → before a b ≡ true → before b c ≡ true → before a c ≡ true
unfolding before
before_trans (i, a) (j, b) (k, c) p q = ground arith

First-mono : (a b : Entry) (es : List Entry) → before a b ≡ true → First b es → First a es
First-mono a b [] p h = tt
First-mono a b (x ∷ es) p h = (before_trans a b x p h.0, First-mono a b es p h.1)

First-insert :
    (a e : Entry) (es : List Entry) → before a e ≡ true → First a es → First a (insert e es)
unfolding insert
First-insert a e [] p h = (p, tt)
First-insert a e (x ∷ es) p h = ground (arith, First-insert a e es p h.1)

insert-Ordered : (e : Entry) (es : List Entry) → Ordered es → Ordered (insert e es)
unfolding insert
insert-Ordered e [] h = (tt, tt)
insert-Ordered e (x ∷ es) h = elim (Bool-cases (before e x)) [
  | inl first ↦ rw first ((first, First-mono e x es first h.0), h)
  | inr later ↦ rw later (First-insert x e es (before_total e x later) h.0, insert-Ordered e es h.1)
]

pub sort-Ordered : (es : List Entry) → Ordered (sort es)
unfolding sort
sort-Ordered [] = tt
sort-Ordered (e ∷ es) = insert-Ordered e (sort es) (sort-Ordered es)

length-insert : (e : Entry) (es : List Entry) → length (insert e es) ≡ suc (length es)
unfolding insert
length-insert e [] = refl
length-insert e (x ∷ es) = ground (arith, length-insert e es)

pub length-sort : (es : List Entry) → length (sort es) ≡ length es
unfolding sort
length-sort [] = refl
length-sort (e ∷ es) = omega (arith, length-insert e (sort es), length-sort es)

lookup-insert :
    (i k : ℕ) (r : Run) (es : List Entry)
    → lookup k es ≡ none
    → lookup i (insert (k, r) es) ≡ (if k == i then some r else lookup i es)
unfolding lookup insert
lookup-insert i k r [] h = refl
lookup-insert i k r ((j, x) ∷ es) h = ground (arith, lookup-insert i k r es)

insert-Distinct :
    (k : ℕ) (r : Run) (es : List Entry)
    → lookup k es ≡ none
    → Distinct es
    → Distinct (insert (k, r) es)
unfolding lookup insert
insert-Distinct k r [] h d = (refl, tt)
insert-Distinct k r ((j, x) ∷ es) h d =
    ground (arith, lookup-insert j k r es, insert-Distinct k r es)

-- The sort moves entries and changes none.
pub lookup-sort :
    (i : ℕ) (es : List Entry)
    → Distinct es
    → (lookup i (sort es) ≡ lookup i es) × Distinct (sort es)
unfolding sort lookup
lookup-sort i [] d = (refl, tt)
lookup-sort i ((k, r) ∷ es) d =
    let absent : lookup k (sort es) ≡ none = (lookup-sort k es d.1).0 ∙ d.0 in
    (
      rw (lookup-insert i k r (sort es) absent, (lookup-sort i es d.1).0),
      insert-Distinct k r (sort es) absent (lookup-sort i es d.1).1,
    )

pub ready-Ordered :
    (s : MemoryStore) (queues : List Text) (moment : Instant) → Ordered (ready s queues moment)
unfolding ready
ready-Ordered s queues moment =
    sort-Ordered (keep (λ (e : Entry). claimable queues moment e.1) s.runs)

pub ready-Distinct :
    (s : MemoryStore) (queues : List Text) (moment : Instant)
    → Distinct s.runs
    → Distinct (ready s queues moment)
unfolding ready
ready-Distinct s queues moment d =
    (lookup-sort 0 _ (keep-Distinct (λ (e : Entry). claimable queues moment e.1) s.runs d)).1

-- What is ready is what may be claimed.
pub lookup-ready :
    (s : MemoryStore) (queues : List Text) (moment : Instant) (i : ℕ)
    → Distinct s.runs
    → lookup i (ready s queues moment)
      ≡ such (λ (e : Entry). claimable queues moment e.1) i (lookup i s.runs)
unfolding ready
lookup-ready s queues moment i d =
    let claims = λ (e : Entry). claimable queues moment e.1 in
    (lookup-sort i _ (keep-Distinct claims s.runs d)).0 ∙ lookup-keep claims i s.runs d
