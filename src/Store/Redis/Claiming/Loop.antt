-- ===== src/Store/Redis/Claiming/Loop.antt =====
-- The loops of CLAIM of src/queuefy/store/redis.py, over the entries of a level and over the levels.
use queuefy.Prelude.{
  ℕ, ◌*◌, ◌<◌, ◌≡◌, ◌≢◌, refl, sym, ap, subst, ◌∙◌, inl, inr, Bool, true, false, none, some, Option,
  List, [], ◌∷◌, arith, leb, length, Bool-cases, Option-cases,
}
use queuefy.Prelude.Int.{ℤ}
use queuefy.Prelude.Text.{Text}
use queuefy.Run.{Run, Instant, same_status}
use queuefy.Store.Base.{claim_spread}
use queuefy.Store.Memory.Rows.{MemoryStore, get}
use queuefy.Store.Memory.Claiming.{started}
use queuefy.Store.Memory.Life.{Row, same, changes, claimed, claims, frees}
use queuefy.Store.Contract.Underway.{begun}
use queuefy.Store.Redis.Places.{Place, lane}
use queuefy.Store.Redis.Commands.{Commands, IsRedis, is_member}
use queuefy.Store.Redis.Kept.{IsKept, let_go}
use queuefy.Store.Redis.Kept.Moves.{zrem-forgotten, rows-zrem}
use queuefy.Store.Redis.Claiming.{
  Waiting, begin_if, if_removed, take, take_each, take_levels, claim, sort_waiting, sort_levels,
  ready, gather,
}
use queuefy.Store.Redis.Claiming.Rows.{lane_run, waits, start, IsClaiming, untaken, take_run}

module _ {T : Type 0} (e : Commands T) (law : IsRedis e) (worker : Text) (lease : ℕ)
    (moment : Instant) (plain : worker ≢ []) (s : MemoryStore) (wanted : ℕ) where
  -- How far the claim has come, with what it has taken.
  abbrev Come : T × List Run → Type 0
  Come x = IsClaiming e law worker lease moment plain s wanted x.1 (e.look x.0)

  module _ (entry : Waiting) (taken : List Run) (t : T) (u : Come (t, taken)) where
    abbrev i : ℕ
    i = entry.id

    abbrev home : Place
    home = lane entry.queue entry.level

    abbrev t1 : T
    t1 = (e.zrem home i t).0

    read : e.hash i t1 ≡ get (e.look t).rows i
    read = law.hash_row i t1 ∙ ap (λ rows. get rows i) (rows-zrem e law i t home)

    let_be : IsKept e.number (e.look t1) → Come (t1, taken)
    let_be v =
        untaken e law worker lease moment plain s wanted taken (e.look t) (e.look t1) u v
          (rows-zrem e law i t home)

    not_there : (o : Option ℤ) → is_member o ≡ false → o ≡ none
    not_there none h = refl
    not_there (some x) h = absurd (cc)

    removed_answer :
        (x : T × Bool)
        → x.1 ≡ true
        → if_removed e worker lease moment i taken x
          ≡ begin_if e worker lease moment i (e.hash i x.0) taken x.0
    removed_answer (t', true) h = refl
    removed_answer (t', false) h = absurd (cc)

    kept_answer :
        (x : T × Bool) → x.1 ≡ false → if_removed e worker lease moment i taken x ≡ (x.0, taken)
    kept_answer (t', true) h = absurd (cc)
    kept_answer (t', false) h = refl

    -- The entry was in its lane.
    was_there :
        length taken < wanted
        → is_member ((e.look t).score home i) ≡ true
        → Come (begin_if e worker lease moment i (e.hash i t1) taken t1)
    unfolding begin_if
    was_there room member = elim (Option-cases (get (e.look t).rows i)) [
      | inl gone ↦ rw (read ∙ gone) (let_be (zrem-forgotten e law i t home u.kept gone))
      | inr (r, here) ↦
          let (waiting, at_home) =
            lane_run e.number entry.queue entry.level r
              (sym (ap is_member ((u.kept.fits i r here).placed home)) ∙ member) in
          rw (read ∙ here) (
            take_run e law worker lease moment plain s wanted i home r t taken u room here waiting
              at_home)
    ]

    take-Come : length taken < wanted → Come (take e worker lease moment entry taken t)
    unfolding take
    take-Come room = elim (Bool-cases (is_member ((e.look t).score home i))) [
      | inl member ↦
          subst Come (sym (removed_answer (e.zrem home i t) (law.zrem_told home i t ∙ member)))
            (was_there room member)
      | inr absent ↦
          let out = not_there ((e.look t).score home i) absent in
          subst Come (sym (kept_answer (e.zrem home i t) (law.zrem_told home i t ∙ absent))) (
            let_be (
              subst (IsKept e.number) (sym (law.zrem_look home i t))
                (let_go e.number home i (e.look t) u.kept out)))
    ]

  take_each-Come :
      (entries : List Waiting) (taken : List Run) (t : T)
      → Come (t, taken)
      → Come (take_each e worker lease moment wanted entries taken t)
  unfolding take_each
  take_each-Come [] taken t u = u
  take_each-Come (entry ∷ rest) taken t u = elim (Bool-cases (leb wanted (length taken))) [
    | inl enough ↦ rw (enough, take_each) u
    | inr more ↦
        let x = take e worker lease moment entry taken t in
        rw (more, take_each)
          (take_each-Come rest x.1 x.0 (take-Come entry taken t u (ground arith)))
  ]

  take_levels-Come :
      (queues : List Text) (most : ℕ) (levels : List ℤ) (taken : List Run) (t : T)
      → Come (t, taken)
      → Come (take_levels e worker lease moment queues wanted most levels taken t)
  unfolding take_levels
  take_levels-Come queues most [] taken t u = u
  take_levels-Come queues most (level ∷ levels) taken t u =
      elim (Bool-cases (leb wanted (length taken))) [
        | inl enough ↦ rw (enough, take_levels) u
        | inr more ↦
            let entries = sort_waiting (ready e queues level moment most t) in
            let x = take_each e worker lease moment wanted entries taken t in
            rw (more, take_levels)
              (take_levels-Come queues most levels x.1 x.0 (take_each-Come entries taken t u))
      ]

module _ {T : Type 0} (e : Commands T) (law : IsRedis e) (worker : Text) (lease : ℕ)
    (moment : Instant) (plain : worker ≢ []) (queues : List Text) (limit : ℕ) (t : T)
    (v : IsKept e.number (e.look t)) where
  -- Where every run waits as it should, and the worker has a name: a claim answers with no more runs
  -- than it was asked for, one for each of a list of numbers of which none stands twice. Each is the
  -- run that waited under its number, as it now stands claimed in the store; the row under every other
  -- number is as it was, so that nothing is taken without being answered with; and every run still
  -- waits where it should.
  pub claim-IsClaiming :
      IsClaiming e law worker lease moment plain
        (e.look t).rows
        limit
        (claim e worker lease moment queues limit t).1
        (e.look (claim e worker lease moment queues limit t).0)
  unfolding claim
  claim-IsClaiming =
      take_levels-Come e law worker lease moment plain (e.look t).rows limit queues
        (limit * claim_spread) (sort_levels (gather e queues [] t)) [] t
        (record {
          kept = v;
          underway = begun waits (start e law worker lease moment plain) (e.look t).rows v.numbered;
          ids = [];
          single = tt;
          answers = tt;
          unclaimed = λ i new. refl;
          within = omega arith;
        })

  pub claim-Row :
      (i : ℕ)
      → Row
          (e.look t).rows
          (claims worker queues limit lease moment)
          i
          (get (e.look (claim e worker lease moment queues limit t).0).rows i)
  unfolding frees started same_status
  claim-Row i = elim (claim-IsClaiming.underway.rows i) [
    | inl as_was ↦ same as_was
    | inr (r, here, waiting, this) ↦
        changes r (started worker lease moment r) here this
          (claimed worker lease moment waiting refl) (λ back. absurd (cc))
  ]
