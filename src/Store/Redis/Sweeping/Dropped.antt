-- ===== src/Store/Redis/Sweeping/Dropped.antt =====
-- What PURGE of src/queuefy/store/redis.py does to each run: nothing, or it drops one that is over.
use queuefy.Prelude.{
  ℕ, ◌<◌, ◌≡◌, refl, sym, ap, subst, ◌∙◌, inl, inr, ◌⊎◌, Bool, true, false, ◌&&◌, none, some,
  Option, List, [], ◌∷◌, arith, ◌==◌, if◌then◌else◌, Bool-cases, All, ==_iff,
}
use mathlib.Core.Option.{some-injective}
use queuefy.Prelude.Int.{ℤ, ltb_ℤ}
use queuefy.Prelude.Text.{Text, ◌==◌ as text_eq}
use queuefy.Prelude.Assoc.{lookup-remove, remove-Distinct, remove-All}
use queuefy.Run.{
  Run, Instant, RunStatus, running, pending, done, failed, canceled, same_status, is_settled,
}
use queuefy.Store.Memory.Rows.{Entry, MemoryStore, get}
use queuefy.Store.Memory.Life.{Row, same, drops, purges}
use queuefy.Store.Memory.Invariant.Numbers.{Numbered}
use queuefy.Store.Redis.Places.{settled, same_place, stamp, read_text, waiting_in}
use queuefy.Store.Redis.Commands.{
  Keyspace, Commands, IsRedis, HasScore, Single, rescored, renamed, unhashed,
}
use queuefy.Store.Redis.Kept.{Fits, IsKept, wants, rescored-Fits}
use queuefy.Store.Redis.Kept.Moves.{still_scored}
use queuefy.Store.Redis.Kept.Growth.{renamed-Fits}
use queuefy.Store.Redis.Sweeping.{free_key, key_named, drop, drop_each, purge}

-- A run with a score among the settled ones is over.
settled_run :
    (number : ℤ → ℤ) (test : ℤ → Bool) (r : Run)
    → HasScore test (wants number r settled)
    → is_settled r.status ≡ true
unfolding waiting_in is_settled same_status
settled_run number test r h = by_status r.status refl
  where
    by_status : (s : RunStatus) → r.status ≡ s → is_settled r.status ≡ true
    by_status running e = absurd (rw (e, waiting_in) at h)
    by_status pending e = absurd (rw (e, waiting_in) at h)
    by_status done e = rw e refl
    by_status failed e = rw e refl
    by_status canceled e = rw e refl

read_text-some : (o : Option Text) (key : Text) → read_text o ≡ some key → o ≡ some key
read_text-some none key e = e
read_text-some (some []) key e = absurd (cc)
read_text-some (some (c ∷ t)) key e = e

module _ (number : ℤ → ℤ) (i : ℕ) where
  abbrev without : Option Text → (Text → Option (Option ℕ)) → Text → Option (Option ℕ)
  without none names = names
  without (some key) names = λ other. if text_eq other key then none else names other

  abbrev freed : Option Text → Keyspace → Keyspace
  freed o k = record k { names = without o k.names }

  -- A key that goes with the run under the number is no other run's.
  abbrev Own : Option Text → Keyspace → Type 0
  Own o k =
      (j : ℕ) (r : Run) (key : Text)
      → (j == i) ≡ false
      → get k.rows j ≡ some r
      → o ≡ some key
      → r.key ≡ some key
      → ⊥

  abbrev dropped : Option Text → Keyspace → Keyspace
  dropped o k = rescored settled i none (unhashed i (freed o k))

  freed-Fits :
      (o : Option Text) (k : Keyspace) (j : ℕ) (r : Run)
      → Own o k
      → (j == i) ≡ false
      → get k.rows j ≡ some r
      → Fits number k j r
      → Fits number (dropped o k) j r
  freed-Fits none k j r own other there f =
      rescored-Fits number settled i none (unhashed i k) j r other
        (record { placed = f.placed; named = f.named; level = f.level })
  freed-Fits (some key) k j r own other there f =
      let g = renamed-Fits number key none k j r (λ its. own j r key other there refl its) f in
      rescored-Fits number settled i none (unhashed i (renamed key none k)) j r other
        (record { placed = g.placed; named = g.named; level = g.level })

  get-dropped :
      (o : Option Text) (k : Keyspace) (j : ℕ)
      → Numbered k.rows
      → get (dropped o k).rows j ≡ (if i == j then none else get k.rows j)
  unfolding get
  get-dropped o k j v = lookup-remove i j k.rows.runs v.distinct

  still_there :
      (o : Option Text) (k : Keyspace) (j : ℕ) (r : Run)
      → Numbered k.rows
      → get (dropped o k).rows j ≡ some r
      → ((j == i) ≡ false) × (get k.rows j ≡ some r)
  still_there o k j r v there = elim (Bool-cases (i == j)) [
    | inl this ↦
        let never : none ≡ some r = rw this at (sym (get-dropped o k j v) ∙ there) in absurd (cc)
    | inr other ↦ (ground arith, rw other at (sym (get-dropped o k j v) ∙ there))
  ]

  -- A run that goes with its key leaves the others as they should be.
  dropped-IsKept :
      (o : Option Text) (k : Keyspace) → Own o k → IsKept number k → IsKept number (dropped o k)
  dropped-IsKept o k own v = record {
    numbered = record {
      distinct = remove-Distinct i k.rows.runs v.numbered.distinct;
      below = remove-All (λ (e : Entry). e.0 < k.rows.sequence) i k.rows.runs v.numbered.below;
    };
    fits = λ j r there.
        let (other, was) = still_there o k j r v.numbered there in
        freed-Fits o k j r own other was (v.fits j r was);
    unseen = λ p j past. elim (Bool-cases (same_place p settled && j == i)) [
      | inl this ↦ rw this refl
      | inr other ↦ rw other (v.unseen p j past)
    ];
  }

  -- What `named` reads of the run is no other run's.
  Own-key : (k : Keyspace) → IsKept number k → Own (key_named (get k.rows i)) k
  Own-key k v j r key other there reads its = by_run (get k.rows i) refl reads
    where
      by_run : (o : Option Run) → get k.rows i ≡ o → key_named o ≡ some key → ⊥
      by_run none here reads' = cc
      by_run (some x) here reads' =
          let mine = (v.fits i x here).named key (read_text-some x.key key reads') in
          let theirs = (v.fits j r there).named key its in
          let one : i ≡ j =
            some-injective i j (some-injective (some i) (some j) (sym mine ∙ theirs)) in
          ground (arith, one)

-- A number whose run stands, or was over and is gone.
abbrev pub Pruned : MemoryStore → ℕ → Option Run → Type 0
Pruned s i o =
    (o ≡ get s i) ⊎ ((r : Run) × (get s i ≡ some r) × (is_settled r.status ≡ true) × (o ≡ none))

module _ {T : Type 0} (e : Commands T) (law : IsRedis e) where
  look_free :
      (o : Option Text) (i : ℕ) (t : T) → e.look (free_key e o t) ≡ freed e.number i o (e.look t)
  look_free none i t = refl
  look_free (some key) i t = law.free_look key t

  look_drop :
      (i : ℕ) (t : T)
      → e.look (drop e i t) ≡ dropped e.number i (key_named (get (e.look t).rows i)) (e.look t)
  unfolding drop
  look_drop i t =
      let o = key_named (e.hash i t) in
      let t1 = free_key e o t in
      law.zrem_look settled i (e.del i t1)
      ∙ ap (rescored settled i none) (law.del_look i t1 ∙ ap (unhashed i) (look_free o i t))
      ∙ ap (λ h. dropped e.number i (key_named h) (e.look t)) (law.hash_row i t)

  -- How far a pruning has come from a store.
  pub record IsPruning (test : ℤ → Bool) (s : MemoryStore) (ids : List ℕ) (k : Keyspace)
      : Type 0 where
    pub kept : IsKept e.number k
    pub sequence : k.rows.sequence ≡ s.sequence
    pub rows : (i : ℕ) → Pruned s i (get k.rows i)
    pub left : All (λ (i : ℕ). HasScore test (k.score settled i)) ids

  module _ (test : ℤ → Bool) (s : MemoryStore) where
    drop_row :
        (i j : ℕ) (t : T)
        → IsKept e.number (e.look t)
        → HasScore test ((e.look t).score settled i)
        → Pruned s j (get (e.look t).rows j)
        → Pruned s j (if i == j then none else get (e.look t).rows j)
    drop_row i j t v scored p = elim (Bool-cases (i == j)) [
      | inl this ↦ rw this (gone ((==_iff i j).0 this) (get (e.look t).rows j) refl p)
      | inr other ↦ rw other p
    ]
      where
        over_there : (r : Run) → i ≡ j → get (e.look t).rows j ≡ some r → is_settled r.status ≡ true
        over_there r same_number there = settled_run e.number test r (
            subst (HasScore test)
              (ap ((e.look t).score settled) same_number ∙ (v.fits j r there).placed settled)
              scored)

        gone : i ≡ j → (o : Option Run) → get (e.look t).rows j ≡ o → Pruned s j o → Pruned s j none
        gone b none there q = q
        gone b (some r) there (inl as_was) = inr (r, sym as_was, over_there r b there, refl)
        gone b (some r) there (inr (x, was, over, this')) = inr (x, was, over, refl)

    drop_each-IsPruning :
        (ids : List ℕ) (t : T)
        → IsPruning test s ids (e.look t)
        → Single ids
        → IsPruning test s [] (e.look (drop_each e ids t))
    unfolding drop_each
    drop_each-IsPruning [] t u single = u
    drop_each-IsPruning (i ∷ ids) t u (once, single) =
        let k = e.look t in
        let o = key_named (get k.rows i) in
        let v = u.kept in
        let (scored, left) = u.left in
        drop_each-IsPruning ids (drop e i t)
          (subst (IsPruning test s ids) (sym (look_drop i t)) (record {
            kept = dropped-IsKept e.number i o k (Own-key e.number i k v) v;
            sequence = u.sequence;
            rows = λ j.
                subst (Pruned s j) (sym (get-dropped e.number i o k j v.numbered))
                  (drop_row i j t v scored (u.rows j));
            left =
                still_scored test settled i ids k (dropped e.number i o k) once
                  (λ j other. rw other refl) left;
          }))
          single

  module _ (before : Instant) (limit : ℕ) (t : T) (v : IsKept e.number (e.look t)) where
    pub purge-IsPruning :
        IsPruning
          (λ y. ltb_ℤ y (e.number (stamp before)))
          (e.look t).rows
          []
          (e.look (purge e before limit t).0)
    unfolding purge
    purge-IsPruning =
        drop_each-IsPruning (λ y. ltb_ℤ y (e.number (stamp before))) (e.look t).rows
          (e.short_of settled (stamp before) limit t) t
          (record {
            kept = v;
            sequence = refl;
            rows = λ i. inl refl;
            left = law.short_of_score settled (stamp before) limit t;
          })
          (law.short_of_single settled (stamp before) limit t)

    pub purge-Row :
        (i : ℕ)
        → Row
            (e.look t).rows
            (purges before limit)
            i
            (get (e.look (purge e before limit t).0).rows i)
    purge-Row i = elim (purge-IsPruning.rows i) [
      | inl as_was ↦ same as_was
      | inr (r, here, over, gone) ↦ drops r here over gone
    ]
