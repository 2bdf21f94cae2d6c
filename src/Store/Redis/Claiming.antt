-- ===== src/Store/Redis/Claiming.antt =====
-- src/queuefy/store/redis.py: CLAIM, and `claim`, which reads what it answers.
pub mod Rows
pub mod Loop
pub mod Levels
pub mod Top
pub mod Progress
use queuefy.Prelude.{
  ℕ, ◌+◌, ◌*◌, Bool, true, false, ◌&&◌, ◌||◌, Option, none, some, List, [], ◌∷◌, ◌++◌, ltb, leb,
  if◌then◌else◌, length, any,
}
use queuefy.Prelude.Int.{ℤ, pos, ltb_ℤ, leb_ℤ, ◌==ℤ◌}
use queuefy.Prelude.Text.{Text}
use queuefy.Run.{Run, Instant, running}
use queuefy.Store.Base.{claim_spread}
use queuefy.Store.Redis.Places.{lane, leased, stamp, field}
use queuefy.Store.Redis.Commands.{Commands}

-- A member of a lane: `due_at`, `id` and what `lane` is named by.
pub record Waiting : Type 0 where
  pub due_at : ℤ
  pub id : ℕ
  pub queue : Text
  pub level : ℤ

-- The first order of `table.sort`, and `table.sort`.
unfoldable pub insert_level : ℤ → List ℤ → List ℤ
insert_level x [] = x ∷ []
insert_level x (y ∷ ys) = if ltb_ℤ x y then y ∷ insert_level x ys else x ∷ y ∷ ys

unfoldable pub sort_levels : List ℤ → List ℤ
unfolding insert_level
sort_levels [] = []
sort_levels (x ∷ xs) = insert_level x (sort_levels xs)

abbrev pub sooner : Waiting → Waiting → Bool
sooner a b = ltb_ℤ a.due_at b.due_at || (a.due_at ==ℤ b.due_at && ltb a.id b.id)

unfoldable pub insert_waiting : Waiting → List Waiting → List Waiting
insert_waiting x [] = x ∷ []
insert_waiting x (y ∷ ys) = if sooner y x then y ∷ insert_waiting x ys else x ∷ y ∷ ys

unfoldable pub sort_waiting : List Waiting → List Waiting
unfolding insert_waiting
sort_waiting [] = []
sort_waiting (x ∷ xs) = insert_waiting x (sort_waiting xs)

-- The levels of one queue that are not `seen`, added to the levels.
unfoldable pub add_levels : List ℤ → List ℤ → List ℤ
add_levels levels [] = levels
add_levels levels (l ∷ ls) =
    add_levels (if any (λ m. m ==ℤ l) levels then levels else levels ++ l ∷ []) ls

abbrev pub waiting_at : Text → ℤ → List (ℕ × ℤ) → List Waiting
waiting_at queue level [] = []
waiting_at queue level ((i, due_at) ∷ rest) =
    record { due_at = due_at; id = i; queue = queue; level = level } ∷ waiting_at queue level rest

abbrev pub with_run : List Run → Option Run → List Run
with_run taken none = taken
with_run taken (some run) = taken ++ run ∷ []

abbrev pub taking : Text → Instant → Instant → Run → Run
taking worker moment until run = record run {
  status = running;
  worker = field worker;
  started_at = some moment;
  lease_until = some until;
}

module _ {T : Type 0} (e : Commands T) where
  unfoldable pub gather : List Text → List ℤ → T → List ℤ
  unfolding add_levels
  gather [] levels t = levels
  gather (queue ∷ queues) levels t = gather queues (add_levels levels (e.levels_of queue t)) t

  -- Every lane of one level.
  unfoldable pub ready : List Text → ℤ → Instant → ℕ → T → List Waiting
  unfolding stamp
  ready [] level moment most t = []
  ready (queue ∷ queues) level moment most t =
      waiting_at queue level (e.due (lane queue level) (stamp moment) most t)
      ++ ready queues level moment most t

  module _ (worker : Text) (lease : ℕ) (moment : Instant) where
    -- The fields of the claim, its attempt, its lease, and `HGETALL`.
    unfoldable pub begin : ℕ → List Run → T → T × List Run
    unfolding stamp
    begin i taken t =
        let t1 = e.hset i (taking worker moment (moment + lease)) t in
        let t2 = e.hincrby i (pos 1) t1 in
        let t3 = e.zadd leased (stamp (moment + lease)) i t2 in (t3, with_run taken (e.hash i t3))

    -- `EXISTS` of a run that was in the lane.
    unfoldable pub begin_if : ℕ → Option Run → List Run → T → T × List Run
    unfolding begin
    begin_if i none taken t = (t, taken)
    begin_if i (some run) taken t = begin i taken t

    abbrev pub if_removed : ℕ → List Run → T × Bool → T × List Run
    if_removed i taken (t, true) = begin_if i (e.hash i t) taken t
    if_removed i taken (t, false) = (t, taken)

    unfoldable pub take : Waiting → List Run → T → T × List Run
    unfolding begin_if
    take entry taken t =
        if_removed entry.id taken (e.zrem (lane entry.queue entry.level) entry.id t)

    -- The loops over the entries of a level and over the levels, which end once enough is taken.
    unfoldable pub take_each : ℕ → List Waiting → List Run → T → T × List Run
    unfolding take
    take_each wanted [] taken t = (t, taken)
    take_each wanted (entry ∷ rest) taken t = elim (leb wanted (length taken)) [
      | true ↦ (t, taken)
      | false ↦ let (t', taken') = take entry taken t in take_each wanted rest taken' t'
    ]

    unfoldable pub take_levels : List Text → ℕ → ℕ → List ℤ → List Run → T → T × List Run
    unfolding take_each ready sort_waiting
    take_levels queues wanted most [] taken t = (t, taken)
    take_levels queues wanted most (level ∷ levels) taken t = elim (leb wanted (length taken)) [
      | true ↦ (t, taken)
      | false ↦
          let (t', taken') =
            take_each wanted (sort_waiting (ready queues level moment most t)) taken t in
          take_levels queues wanted most levels taken' t'
    ]

    -- CLAIM.
    unfoldable pub claim : List Text → ℕ → T → T × List Run
    unfolding gather sort_levels take_levels
    claim queues limit t =
        take_levels queues limit (limit * claim_spread) (sort_levels (gather queues [] t)) [] t
