-- ===== src/Store/Redis/Claiming/Progress.antt =====
-- What CLAIM of src/queuefy/store/redis.py takes first.
use queuefy.Prelude.{
  ℕ, ◌*◌, ◌<◌, ◌≡◌, ◌≢◌, ◌⊎◌, refl, sym, ap, subst, ◌∙◌, inl, inr, Bool, true, false, some, List,
  [], ◌∷◌, ◌++◌, arith, leb, Bool-cases, All,
}
use queuefy.Prelude.Int.{ℤ, pos, ◌≤ℤ◌, ◌==ℤ◌, ==ℤ_iff, leb_ℤ}
use queuefy.Prelude.Text.{Text}
use queuefy.Run.{Run, Instant, pending, same_status, same_status_lem}
use queuefy.Store.Base.{claim_spread}
use queuefy.Store.Memory.Rows.{get}
use queuefy.Store.Memory.Claiming.{started, serves}
use queuefy.Store.Contract.History.{get-Below}
use queuefy.Store.Redis.Places.{Place, lane, stamp, waiting_in, same_place_refl}
use queuefy.Store.Redis.Commands.{Keyspace, lists, Commands, IsRedis, is_member}
use queuefy.Store.Redis.Kept.{IsKept}
use queuefy.Store.Redis.Kept.Moves.{rows-zrem}
use queuefy.Store.Redis.Claiming.{
  Waiting, waiting_at, begin_if, if_removed, take, take_each, take_levels, claim, sort_waiting,
  sort_levels, ready, gather,
}
use queuefy.Store.Redis.Claiming.Rows.{lane_run, begin-IsWritten}
use queuefy.Store.Redis.Claiming.Levels.{
  Falling, sort_levels-Falling, lists-sort_levels, lists-gather, ready-some, sort_waiting-All,
  sort_waiting-some,
}
use queuefy.Store.Redis.Claiming.Top.{HasTop, take_each-HasTop, take_levels-HasTop}

-- Every number in a lane names a run.
abbrev pub Peopled : Keyspace → Type 0
Peopled k =
    (queue : Text) (level : ℤ) (i : ℕ) (y : ℤ)
    → k.score (lane queue level) i ≡ some y
    → (r : Run) × (get k.rows i ≡ some r)

module _ {T : Type 0} (e : Commands T) (law : IsRedis e) (worker : Text) (lease : ℕ)
    (moment : Instant) (plain : worker ≢ []) (t : T) (v : IsKept e.number (e.look t))
    (full : Peopled (e.look t)) where
  -- An entry that is in its lane, of a level.
  abbrev Present : ℤ → Waiting → Type 0
  Present level entry =
      ((e.look t).score (lane entry.queue entry.level) entry.id ≡ some entry.due_at)
      × (entry.level ≡ level)

  waiting_at-Present :
      (queue : Text) (level : ℤ) (l : List (ℕ × ℤ))
      → All (λ (m : ℕ × ℤ). (e.look t).score (lane queue level) m.0 ≡ some m.1) l
      → All (Present level) (waiting_at queue level l)
  waiting_at-Present queue level [] h = tt
  waiting_at-Present queue level (m ∷ l) h = ((h.0, refl), waiting_at-Present queue level l h.1)

  All_both :
      (level : ℤ) (xs ys : List Waiting)
      → All (Present level) xs
      → All (Present level) ys
      → All (Present level) (xs ++ ys)
  All_both level [] ys h k = k
  All_both level (x ∷ xs) ys h k = (h.0, All_both level xs ys h.1 k)

  ready-Present :
      (queues : List Text) (level : ℤ) (most : ℕ)
      → All (Present level) (ready e queues level moment most t)
  unfolding ready
  ready-Present [] level most = tt
  ready-Present (q ∷ queues) level most =
      All_both level (waiting_at q level (e.due (lane q level) (stamp moment) most t))
        (ready e queues level moment most t)
        (waiting_at-Present q level (e.due (lane q level) (stamp moment) most t)
          (law.due_score (lane q level) (stamp moment) most t))
        (ready-Present queues level most)

  if_removed-true :
      (i : ℕ) (x : T × Bool)
      → x.1 ≡ true
      → if_removed e worker lease moment i [] x
        ≡ begin_if e worker lease moment i (e.hash i x.0) [] x.0
  if_removed-true i (t', true) h = refl
  if_removed-true i (t', false) h = absurd (cc)

  abbrev level_of : Place → ℤ
  level_of (lane queue level) = level
  level_of _ = pos 0

  pending_level :
      (r : Run) (queue : Text) (level : ℤ)
      → same_status r.status pending ≡ true
      → (waiting_in r).0 ≡ lane queue level
      → r.priority ≡ level
  unfolding waiting_in
  pending_level r queue level waiting home =
      let there : (waiting_in r).0 ≡ lane r.queue r.priority =
        rw (same_status_lem r.status pending waiting) refl in
      ap level_of (sym there ∙ home)

  -- The first entry is taken.
  take-HasTop :
      (level : ℤ) (entry : Waiting)
      → Present level entry
      → HasTop level (take e worker lease moment entry [] t).1
  unfolding take begin_if started
  take-HasTop level entry (here, its_level) =
      let i = entry.id in
      let home = lane entry.queue entry.level in
      let t1 = (e.zrem home i t).0 in
      let (r, there) = full entry.queue entry.level i entry.due_at here in
      let (waiting, at_home) =
        lane_run e.number entry.queue entry.level r
          (ap is_member (sym ((v.fits i r there).placed home) ∙ here)) in
      let read : e.hash i t1 ≡ some r =
        law.hash_row i t1 ∙ ap (λ rows. get rows i) (rows-zrem e law i t home) ∙ there in
      let answer =
        if_removed-true i (e.zrem home i t) (law.zrem_told home i t ∙ ap is_member here)
        ∙ ap (λ o. begin_if e worker lease moment i o [] t1) read in
      let taken_one =
        (begin-IsWritten e law worker lease moment plain i home r t v there at_home []).1 in
      (
        started worker lease moment r,
        [],
        ap (λ (x : T × List Run). x.1) answer ∙ taken_one,
        pending_level r entry.queue entry.level waiting at_home ∙ its_level,
      )

  -- A level with entries gives its first; one with none gives nothing and changes nothing.
  first_entry :
      (level : ℤ) (wanted : ℕ) (entries : List Waiting)
      → 0 < wanted
      → All (Present level) entries
      → entries ≢ []
      → HasTop level (take_each e worker lease moment wanted entries [] t).1
  unfolding take_each
  first_entry level wanted [] room all_there some_of = absurd (some_of refl)
  first_entry level wanted (entry ∷ rest) room (here, later) some_of =
      let more : leb wanted 0 ≡ false = ground arith in
      let x = take e worker lease moment entry [] t in
      rw (more, take_each)
        (take_each-HasTop e worker lease moment level wanted rest x.1 x.0
          (take-HasTop level entry here))

  some_or_none : (xs : List Waiting) → (xs ≡ []) ⊎ (xs ≢ [])
  some_or_none [] = inl refl
  some_or_none (x ∷ xs) = inr (λ never. cc)

  no_higher :
      (level l : ℤ) (levels : List ℤ)
      → All (λ (y : ℤ). y ≤ℤ l) levels
      → lists level levels ≡ true
      → level ≤ℤ l
  no_higher level l [] below listed = absurd (cc)
  no_higher level l (m ∷ levels) (le, below) listed = elim (Bool-cases (m ==ℤ level)) [
    | inl this ↦ subst (λ y. y ≤ℤ l) ((==ℤ_iff m level).0 this) le
    | inr other ↦ no_higher level l levels below (rw other at listed)
  ]

  level_or_below :
      (level l : ℤ) (levels : List ℤ)
      → All (λ (y : ℤ). y ≤ℤ l) levels
      → lists level (l ∷ levels) ≡ true
      → level ≤ℤ l
  level_or_below level l levels below listed = elim (Bool-cases (l ==ℤ level)) [
    | inl this ↦ rw ((==ℤ_iff l level).0 this) (omega arith)
    | inr other ↦ no_higher level l levels below (rw other at listed)
  ]

  elsewhere :
      (l level : ℤ) (levels : List ℤ)
      → (l ≡ level → ⊥)
      → lists level (l ∷ levels) ≡ true
      → lists level levels ≡ true
  elsewhere l level levels differs listed = elim (Bool-cases (l ==ℤ level)) [
    | inl this ↦ absurd (differs ((==ℤ_iff l level).0 this))
    | inr other ↦ rw other at listed
  ]

  in_lane :
      (i : ℕ) (r : Run)
      → get (e.look t).rows i ≡ some r
      → same_status r.status pending ≡ true
      → (e.look t).score (lane r.queue r.priority) i ≡ some (e.number (stamp r.due_at))
  unfolding waiting_in
  in_lane i r here waiting =
      let pends = same_status_lem r.status pending waiting in
      (v.fits i r here).placed (lane r.queue r.priority)
      ∙ rw (pends, waiting_in, same_place_refl (lane r.queue r.priority)) refl

  -- The levels are walked down to the first one that is ready, which is no lower than any other.
  first_level :
      (queues : List Text) (wanted most : ℕ) (level : ℤ) (levels : List ℤ)
      → 0 < wanted
      → Falling levels
      → lists level levels ≡ true
      → ready e queues level moment most t ≢ []
      → (top : ℤ) × (level ≤ℤ top)
        × HasTop top (take_levels e worker lease moment queues wanted most levels [] t).1
  unfolding take_levels
  first_level queues wanted most level [] room falling listed some_of = absurd (cc)
  first_level queues wanted most level (l ∷ levels) room (below, falling) listed some_of =
      let more : leb wanted 0 ≡ false = ground arith in
      let entries = sort_waiting (ready e queues l moment most t) in
      elim (some_or_none (ready e queues l moment most t)) [
        | inl empty ↦
            let nothing : take_each e worker lease moment wanted entries [] t ≡ (t, []) =
              ap (λ xs. take_each e worker lease moment wanted (sort_waiting xs) [] t) empty in
            let later : lists level levels ≡ true =
              elsewhere l level levels (λ one. some_of (rw (← one) empty)) listed in
            rw (more, take_levels)
              (subst
                (λ (x : T × List Run).
                  (top : ℤ) × (level ≤ℤ top)
                  × HasTop top
                      (take_levels e worker lease moment queues wanted most levels x.1 x.0).1)
                (sym nothing)
                (first_level queues wanted most level levels room falling later some_of))
        | inr some_here ↦
            let x = take_each e worker lease moment wanted entries [] t in
            rw (more, take_levels)
              (
                l,
                level_or_below level l levels below listed,
                take_levels-HasTop e worker lease moment l queues wanted most levels x.1 x.0 (
                    first_entry l wanted entries room
                      (sort_waiting-All (Present l) (ready e queues l moment most t)
                        (ready-Present queues l most))
                      (sort_waiting-some (ready e queues l moment most t) some_here)),
              )
      ]

  -- Where every run waits as it should and every number in a lane names a run: when a run waits in a
  -- queue that is served and came due, by the scores that redis compares, a claim of at least one run
  -- answers with at least one, and the first is of no lower priority than that run.
  pub claim_first :
      (queues : List Text) (limit : ℕ) (i : ℕ) (r : Run)
      → 0 < limit
      → get (e.look t).rows i ≡ some r
      → same_status r.status pending ≡ true
      → serves queues r.queue ≡ true
      → leb_ℤ (e.number (stamp r.due_at)) (e.number (stamp moment)) ≡ true
      → (x : Run) × (rest : List Run) × ((claim e worker lease moment queues limit t).1 ≡ x ∷ rest)
        × (r.priority ≤ℤ x.priority)
  unfolding claim
  claim_first queues limit i r room here waiting served in_time =
      let k = e.look t in
      let most = limit * claim_spread in
      let levels = gather e queues [] t in
      let listed : lists r.priority (e.levels_of r.queue t) ≡ true =
        law.levels_told r.queue r.priority t (v.fits i r here).level in
      let due_there =
        law.due_some (lane r.queue r.priority) (stamp moment) (e.number (stamp r.due_at)) most i t
          (get-Below k.rows i r v.numbered.below here) (in_lane i r here waiting) in_time
          (omega arith) in
      let (top, le, (x, rest, begins, its)) =
        first_level queues limit most r.priority (sort_levels levels) room
          (sort_levels-Falling levels)
          (lists-sort_levels r.priority levels
            (lists-gather e t r.priority r.queue queues [] served listed))
          (ready-some e t r.queue queues r.priority moment most served due_there) in
      (x, rest, begins, subst (λ y. r.priority ≤ℤ y) (sym its) le)
