-- ===== src/Store/Redis/Commands.antt =====
-- What src/queuefy/store/redis.py asks of redis: commands on one set of keys, a parameter.
-- The hashes are read as the runs that `to_run` makes of them, under their numbers, in the order they
-- were written, and the sequence as the number that the next `INCR` gives. A score is a double, and
-- `number` is what a double holds of a whole number.
use queuefy.Prelude.{
  ℕ, suc, ◌<◌, ◌≡◌, ◌≢◌, Bool, true, false, ◌&&◌, Option, none, some, List, [], ◌∷◌, ◌++◌, ◌==◌,
  if◌then◌else◌, All, any,
}
use queuefy.Prelude.Int.{ℤ, ◌≤ℤ◌, ltb_ℤ, leb_ℤ, ◌+ℤ◌, ◌==ℤ◌}
use queuefy.Prelude.Text.{Text, ◌==◌ as text_eq}
use queuefy.Prelude.Assoc.{put, remove}
use queuefy.Run.{Run}
use queuefy.Store.Memory.Rows.{MemoryStore, get}
use queuefy.Store.Redis.Places.{Place, same_place}

pub record Keyspace : Type 0 where
  pub rows : MemoryStore
  -- The score of a number in a sorted set that it is a member of.
  pub score : Place → ℕ → Option ℤ
  -- What a key is reserved for: nothing yet, or a run.
  pub names : Text → Option (Option ℕ)
  -- The priorities that are listed for a queue.
  pub levels : Text → List ℤ

abbrev pub rescored : Place → ℕ → Option ℤ → Keyspace → Keyspace
rescored place i x k = record k {
  score = λ p j. if same_place p place && j == i then x else k.score p j;
}

abbrev pub rehashed : ℕ → Run → Keyspace → Keyspace
rehashed i run k = record k { rows = record k.rows { runs = put i run k.rows.runs } }

abbrev pub renamed : Text → Option (Option ℕ) → Keyspace → Keyspace
renamed key x k = record k { names = λ other. if text_eq other key then x else k.names other }

abbrev pub counted : Keyspace → Keyspace
counted k = record k { rows = record k.rows { sequence = suc k.rows.sequence } }

abbrev pub hashed : ℕ → Run → Keyspace → Keyspace
hashed i run k = record k { rows = record k.rows { runs = k.rows.runs ++ (i, run) ∷ [] } }

abbrev pub unhashed : ℕ → Keyspace → Keyspace
unhashed i k = record k { rows = record k.rows { runs = remove i k.rows.runs } }

abbrev pub levelled : Text → ℤ → Keyspace → Keyspace
levelled queue level k = record k {
  levels = λ q. if text_eq q queue then level ∷ k.levels q else k.levels q;
}

abbrev pub lists : ℤ → List ℤ → Bool
lists level levels = any (λ l. l ==ℤ level) levels

abbrev pub is_free : Option (Option ℕ) → Bool
is_free none = true
is_free (some x) = false

abbrev pub is_member : Option ℤ → Bool
is_member none = false
is_member (some x) = true

abbrev pub HasScore : (ℤ → Bool) → Option ℤ → Type 0
HasScore test none = ⊥
HasScore test (some x) = test x ≡ true

-- No number twice.
abbrev pub Single : List ℕ → Type 0
Single [] = Unit
Single (i ∷ ids) = (any (λ j. j == i) ids ≡ false) × Single ids

pub record Commands (T : Type 0) : Type 0 where
  pub look : T → Keyspace
  pub number : ℤ → ℤ
  -- `ZADD` of one member, and `ZREM`: whether there was one.
  pub zadd : Place → ℤ → ℕ → T → T
  pub zrem : Place → ℕ → T → T × Bool
  -- `HGETALL` of a run, and `EXISTS` and `HGET` by what it answers.
  pub hash : ℕ → T → Option Run
  -- `HSET` of some fields of a run that is there, and `HINCRBY` of its attempts.
  pub hset : ℕ → (Run → Run) → T → T
  pub hincrby : ℕ → ℤ → T → T
  -- `HSET` of every field of a run that is not there.
  pub hwrite : ℕ → Run → T → T
  -- `DEL` of a run.
  pub del : ℕ → T → T
  -- `INCR` of the sequence.
  pub incr : T → T × ℕ
  -- `SET` of a key to nothing with `NX`: whether it was set; then `SET` to a run, `DEL` and `GET`.
  pub reserve : Text → T → T × Bool
  pub assign : Text → ℕ → T → T
  pub free : Text → T → T
  pub named : Text → T → Option (Option ℕ)
  -- `ZADD` and `ZREVRANGE` of the priorities of a queue.
  pub list_level : Text → ℤ → T → T
  pub levels_of : Text → T → List ℤ
  -- `ZRANGEBYSCORE` from the lowest score up to one, or short of one, with a limit.
  pub due : Place → ℤ → ℕ → T → List (ℕ × ℤ)
  pub short_of : Place → ℤ → ℕ → T → List ℕ
  -- `SCAN` of the runs.
  pub scan : T → List ℕ

-- The documented meaning of the commands.
pub record IsRedis {T : Type 0} (e : Commands T) : Type 0 where
  pub number_mono : (a b : ℤ) → a ≤ℤ b → e.number a ≤ℤ e.number b
  pub zadd_look :
      (place : Place) (x : ℤ) (i : ℕ) (t : T)
      → e.look (e.zadd place x i t) ≡ rescored place i (some (e.number x)) (e.look t)
  pub zrem_look :
      (place : Place) (i : ℕ) (t : T)
      → e.look (e.zrem place i t).0 ≡ rescored place i none (e.look t)
  pub zrem_told :
      (place : Place) (i : ℕ) (t : T) → (e.zrem place i t).1 ≡ is_member ((e.look t).score place i)
  pub hash_row : (i : ℕ) (t : T) → e.hash i t ≡ get (e.look t).rows i
  pub hset_look :
      (i : ℕ) (f : Run → Run) (t : T) (r : Run)
      → get (e.look t).rows i ≡ some r
      → e.look (e.hset i f t) ≡ rehashed i (f r) (e.look t)
  pub hincrby_look :
      (i : ℕ) (by : ℤ) (t : T) (r : Run)
      → get (e.look t).rows i ≡ some r
      → e.look (e.hincrby i by t) ≡ rehashed i (record r { attempts = r.attempts +ℤ by }) (e.look t)
  pub hwrite_look :
      (i : ℕ) (r : Run) (t : T)
      → get (e.look t).rows i ≡ none
      → e.look (e.hwrite i r t) ≡ hashed i r (e.look t)
  pub del_look : (i : ℕ) (t : T) → e.look (e.del i t) ≡ unhashed i (e.look t)
  pub incr_look : (t : T) → e.look (e.incr t).0 ≡ counted (e.look t)
  pub incr_told : (t : T) → (e.incr t).1 ≡ (e.look t).rows.sequence
  pub reserve_told : (key : Text) (t : T) → (e.reserve key t).1 ≡ is_free ((e.look t).names key)
  pub reserve_look :
      (key : Text) (t : T)
      → e.look (e.reserve key t).0
        ≡ (if is_free ((e.look t).names key) then renamed key (some none) (e.look t) else e.look t)
  pub assign_look :
      (key : Text) (i : ℕ) (t : T)
      → e.look (e.assign key i t) ≡ renamed key (some (some i)) (e.look t)
  pub free_look : (key : Text) (t : T) → e.look (e.free key t) ≡ renamed key none (e.look t)
  pub named_told : (key : Text) (t : T) → e.named key t ≡ (e.look t).names key
  pub list_level_look :
      (queue : Text) (level : ℤ) (t : T)
      → e.look (e.list_level queue level t) ≡ levelled queue level (e.look t)
  pub levels_told :
      (queue : Text) (level : ℤ) (t : T)
      → lists level ((e.look t).levels queue) ≡ true
      → lists level (e.levels_of queue t) ≡ true
  pub due_score :
      (place : Place) (x : ℤ) (limit : ℕ) (t : T)
      → All
          (λ (entry : ℕ × ℤ). (e.look t).score place entry.0 ≡ some entry.1)
          (e.due place x limit t)
  pub due_by :
      (place : Place) (x : ℤ) (limit : ℕ) (t : T)
      → All (λ (entry : ℕ × ℤ). leb_ℤ entry.1 (e.number x) ≡ true) (e.due place x limit t)
  -- A limit leaves nothing out but past a member.
  pub due_some :
      (place : Place) (x y : ℤ) (limit i : ℕ) (t : T)
      → i < (e.look t).rows.sequence
      → (e.look t).score place i ≡ some y
      → leb_ℤ y (e.number x) ≡ true
      → 0 < limit
      → e.due place x limit t ≢ []
  pub short_of_score :
      (place : Place) (x : ℤ) (limit : ℕ) (t : T)
      → All
          (λ (i : ℕ). HasScore (λ y. ltb_ℤ y (e.number x)) ((e.look t).score place i))
          (e.short_of place x limit t)
  pub short_of_single :
      (place : Place) (x : ℤ) (limit : ℕ) (t : T) → Single (e.short_of place x limit t)
