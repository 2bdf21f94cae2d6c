-- ===== src/Store/Sql/Contention/Tries.antt =====
-- What `under_contention` comes to: a transaction that is asked for again leaves one effect or none.
use queuefy.Prelude.{
  ℕ, zero, suc, ◌≤◌, ◌≡◌, refl, ◌∙◌, inl, inr, ◌⊎◌, Bool, true, false, List, [], ◌∷◌, arith, subst,
  length, Bool-cases, All, any,
}
use queuefy.Store.Sql.Contention.{
  Fault, Refusal, Verdict, passed, lost, refused, refusal, driver, contended, Tried, did, raised,
  Server, through, transaction, answered_or, tries, under_contention,
}

module _ {T : Type 0} {A : Type 0} (work : Server T → Server T × Tried A) (Q : Server T → Type 0)
    (R : Server T × Tried A → Type 0) (one : (w : Server T) → Q w → R (work w))
    (rolled_back : (w : Server T) (f : Fault) → contended f ≡ true → R (w, raised f) → Q w) where
  -- What holds of every try from such a server, and says that contention leaves such a server, holds
  -- of all the tries together.
  answered_or-keeps :
      (rest : Server T → Server T × Tried A) (x : Server T × Tried A)
      → ((w : Server T) → Q w → R (rest w))
      → R x
      → R (answered_or rest x)
  unfolding answered_or
  answered_or-keeps rest (w, did a) again h = h
  answered_or-keeps rest (w, raised f) again h = elim (Bool-cases (contended f)) [
    | inl asked ↦ rw (asked, answered_or) (again w (rolled_back w f asked h))
    | inr other ↦ rw (other, answered_or) h
  ]

  pub tries-keeps : (left : ℕ) (w : Server T) → Q w → R (tries left work w)
  unfolding tries
  tries-keeps zero w e = one w e
  tries-keeps (suc left) w e =
      answered_or-keeps (tries left work) (work w) (tries-keeps left) (one w e)

abbrev pub is_lost : Verdict → Bool
is_lost lost = true
is_lost v = false

-- Among the verdicts an answer is lost.
abbrev pub Loses : List Verdict → Type 0
Loses vs = any is_lost vs ≡ true

-- The driver's own errors are not asked for again.
pub driver_last : (f : Fault) → f ≡ refusal driver → contended f ≡ true → ⊥
unfolding contended
driver_last f e h =
    let no : contended (refusal driver) ≡ true = subst (λ g. contended g ≡ true) e h in absurd (cc)

-- A transaction did the whole of its body once and answers as the body does; or it raises, and did
-- nothing; or its answer was lost among the verdicts, and it did the whole of its body once and
-- raises what is not asked for again. The verdicts it leaves lose no answer that they did not lose.
abbrev pub IsWhole :
    {T : Type 0} {A : Type 0} → (T → T × A) → List Verdict → T → Server T × Tried A → Type 0
IsWhole body vs t (w, outcome) =
    (Loses w.verdicts → Loses vs)
    × (((w.table ≡ (body t).0) × (outcome ≡ did (body t).1))
        ⊎ ((fault : Fault) × (w.table ≡ t) × (outcome ≡ raised fault))
        ⊎ ((w.table ≡ (body t).0) × (outcome ≡ raised (refusal driver)) × Loses vs))

-- What the database refused under contention before it let the transaction through.
abbrev pub after_refusals : List Refusal → List Verdict → List Verdict
after_refusals [] later = later
after_refusals (f ∷ fs) later = refused f ∷ after_refusals fs later

module _ {T : Type 0} {A : Type 0} (body : T → T × A) where
  judged-IsWhole : (vs : List Verdict) (t : T) → IsWhole body vs t (through vs body t)
  judged-IsWhole [] t = (λ h. h, inl (refl, refl))
  judged-IsWhole (passed ∷ vs) t = (λ h. h, inl (refl, refl))
  judged-IsWhole (lost ∷ vs) t = (λ h. refl, inr (inr (refl, refl, refl)))
  judged-IsWhole (refused f ∷ vs) t = (λ h. h, inr (inl (refusal f, refl, refl)))

  pub transaction-IsWhole : (w : Server T) → IsWhole body w.verdicts w.table (transaction body w)
  unfolding transaction
  transaction-IsWhole w = judged-IsWhole w.verdicts w.table

  -- The server as it was asked, but for verdicts that are spent.
  abbrev AsAsked : Server T → Server T → Type 0
  AsAsked w w' = (w'.table ≡ w.table) × (Loses w'.verdicts → Loses w.verdicts)

  rolled_back :
      (w w' : Server T) (f : Fault)
      → contended f ≡ true
      → IsWhole body w.verdicts w.table (w', raised f)
      → AsAsked w w'
  rolled_back w w' f again (kept, inl (_, e)) = absurd (cc)
  rolled_back w w' f again (kept, inr (inl (_, e, _))) = (e, kept)
  rolled_back w w' f again (kept, inr (inr (_, e, l))) =
      let this : f ≡ refusal driver = cc in absurd (driver_last f this again)

  asked_again :
      (w w' : Server T) → AsAsked w w' → IsWhole body w.verdicts w.table (transaction body w')
  asked_again w w' (table, fewer) =
      widened (transaction body w') (
        subst (λ t. IsWhole body w'.verdicts t (transaction body w')) table
          (transaction-IsWhole w'))
    where
      widened :
          (x : Server T × Tried A)
          → IsWhole body w'.verdicts w.table x
          → IsWhole body w.verdicts w.table x
      widened (v, outcome) (kept, inl h) = (λ l. fewer (kept l), inl h)
      widened (v, outcome) (kept, inr (inl h)) = (λ l. fewer (kept l), inr (inl h))
      widened (v, outcome) (kept, inr (inr (e, o, l))) =
          (λ l'. fewer (kept l'), inr (inr (e, o, fewer l)))

  -- However the database decides, a write that is asked for again under contention does the whole of
  -- its body once and answers as it does; or raises and leaves the table as it was; or, where an
  -- answer was lost after its commit, does the whole of its body once, and never again, and raises
  -- the error of the driver. No verdict that loses an answer is left that was not there.
  pub under_contention-IsWhole :
      (w : Server T) → IsWhole body w.verdicts w.table (under_contention (transaction body) w)
  unfolding under_contention
  under_contention-IsWhole w =
      tries-keeps (transaction body) (AsAsked w) (IsWhole body w.verdicts w.table) (asked_again w)
        (rolled_back w) 7 w (refl, λ h. h)

  answered_or_again :
      (rest : Server T → Server T × Tried A) (w : Server T) (f : Fault)
      → contended f ≡ true
      → answered_or rest (w, raised f) ≡ rest w
  unfolding answered_or
  answered_or_again rest w f h = rw (h, answered_or) refl

  tries_through :
      (left : ℕ) (fs : List Refusal) (t : T) (later : List Verdict)
      → All (λ f. contended (refusal f) ≡ true) fs
      → length fs ≤ left
      → tries left
          (transaction body)
          (record { table = t; verdicts = after_refusals fs (passed ∷ later) })
        ≡ (record { table = (body t).0; verdicts = later }, did (body t).1)
  unfolding tries transaction answered_or
  tries_through zero [] t later h l = refl
  tries_through zero (f ∷ fs) t later h l = absurd (omega arith)
  tries_through (suc left) [] t later h l = refl
  tries_through (suc left) (f ∷ fs) t later h l =
      answered_or_again (tries left (transaction body))
        (record { table = t; verdicts = after_refusals fs (passed ∷ later) }) (refusal f) h.0
      ∙ tries_through left fs t later h.1 (omega arith)

  -- A write outlasts seven refusals by contention: it then goes through with the whole of its body.
  pub under_contention_through :
      (fs : List Refusal) (t : T) (later : List Verdict)
      → All (λ f. contended (refusal f) ≡ true) fs
      → length fs ≤ 7
      → under_contention
          (transaction body)
          (record { table = t; verdicts = after_refusals fs (passed ∷ later) })
        ≡ (record { table = (body t).0; verdicts = later }, did (body t).1)
  unfolding under_contention
  under_contention_through fs t later h l = tries_through 7 fs t later h l
