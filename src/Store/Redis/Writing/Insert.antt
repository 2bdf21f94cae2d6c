-- ===== src/Store/Redis/Writing/Insert.antt =====
-- ADD of src/queuefy/store/redis.py, against the memory store's `add`.
use queuefy.Prelude.{
  ℕ, suc, ◌≡◌, refl, sym, ap, subst, ◌∙◌, false, none, some, Option, ◌==◌, if◌then◌else◌,
}
use queuefy.Prelude.Text.{Text}
use queuefy.Run.{Run, Instant}
use queuefy.Store.Memory.Rows.{MemoryStore, get, taken}
use queuefy.Store.Memory.Rows as Rows
use queuefy.Store.Memory.Rows.Exact.{written, get-add}
use queuefy.Store.Redis.Places.{Place, stamp, read_text, waiting_in}
use queuefy.Store.Redis.Commands.{Keyspace, hashed, levelled, Commands, IsRedis}
use queuefy.Store.Redis.Kept.{IsKept}
use queuefy.Store.Redis.Writing.{write_run, seat, assign_key}
use queuefy.Store.Redis.Writing.Alike.{IsAlike}
use queuefy.Store.Redis.Writing.Added.{
  recorded, seated_at, assigned, grown, free, Unused, seated_rows, grown-IsKept,
}

-- A run with no empty text for nothing, which is read back as it was written.
pub record IsPlain (run : Run) : Type 0 where
  pub key : read_text run.key ≡ run.key
  pub worker : read_text run.worker ≡ run.worker
  pub error : read_text run.error ≡ run.error
  pub error_type : read_text run.error_type ≡ run.error_type

module _ {T : Type 0} (e : Commands T) (law : IsRedis e) (run : Run) where
  look_assign :
      (k : Keyspace) (key : Option Text) (t : T)
      → e.look (assign_key e key k.rows.sequence t) ≡ assigned e.number run k key (e.look t)
  look_assign k none t = refl
  look_assign k (some key) t = law.assign_look key k.rows.sequence t

  look_seat :
      (k : Keyspace) (home : Place) (at : Option Instant) (t : T)
      → e.look (seat e home at k.rows.sequence t) ≡ seated_at e.number run k home at (e.look t)
  look_seat k home none t = refl
  look_seat k home (some at) t = law.zadd_look home (stamp at) k.rows.sequence t

  module _ (plain : IsPlain run) (t : T) (v : IsKept e.number (e.look t)) where
    abbrev k : Keyspace
    k = e.look t

    abbrev recording : T
    recording =
        e.list_level run.queue run.priority
          (e.hwrite k.rows.sequence (written k.rows run) (e.incr t).0)

    look_recording : e.look recording ≡ recorded e.number run k
    unfolding get
    look_recording =
        let i = k.rows.sequence in
        let t1 = (e.incr t).0 in
        let free1 : get (e.look t1).rows i ≡ none =
          subst (λ k'. get k'.rows i ≡ none) (sym (law.incr_look t)) (free e.number run k v) in
        law.list_level_look run.queue run.priority (e.hwrite i (written k.rows run) t1)
        ∙ ap (levelled run.queue run.priority) (
            law.hwrite_look i (written k.rows run) t1 free1
            ∙ ap (hashed i (written k.rows run)) (law.incr_look t))

    abbrev wrote : T × Option Run
    wrote = (
      assign_key e run.key k.rows.sequence
          (seat e (waiting_in run).0 (waiting_in run).1 k.rows.sequence recording),
      some (written k.rows run),
    )

    write_run-wrote : write_run e run t ≡ wrote
    unfolding write_run
    write_run-wrote =
        rw (plain.key, plain.worker, plain.error, plain.error_type, law.incr_told t) refl

    look_wrote : e.look wrote.0 ≡ grown e.number run k
    look_wrote =
        let (home, at) = waiting_in run in
        look_assign k run.key (seat e home at k.rows.sequence recording)
        ∙ ap (assigned e.number run k run.key)
            (look_seat k home at recording ∙ ap (seated_at e.number run k home at) look_recording)

    grown_rows :
        (j : ℕ)
        → get (grown e.number run k).rows j
          ≡ (if k.rows.sequence == j then some (written k.rows run) else get k.rows j)
    grown_rows j = by_key run.key
      where
        by_key :
            (key : Option Text)
            → get
                (assigned e.number run k key (
                  seated_at e.number run k
                    (waiting_in run).0
                    (waiting_in run).1
                    (recorded e.number run k))).rows
                j
              ≡ (if k.rows.sequence == j then some (written k.rows run) else get k.rows j)
        by_key none = seated_rows e.number run k v (waiting_in run).0 (waiting_in run).1 j
        by_key (some key) = seated_rows e.number run k v (waiting_in run).0 (waiting_in run).1 j

    grown_sequence : (grown e.number run k).rows.sequence ≡ suc k.rows.sequence
    grown_sequence = by_key run.key (waiting_in run).1
      where
        by_key :
            (key : Option Text) (at : Option Instant)
            → (assigned e.number run k key (
                seated_at e.number run k
                  (waiting_in run).0
                  at
                  (recorded e.number run k))).rows.sequence
              ≡ suc k.rows.sequence
        by_key none none = refl
        by_key none (some at) = refl
        by_key (some key) none = refl
        by_key (some key) (some at) = refl

    pub write_run-IsAlike :
        Unused e.number run k v run.key
        → taken k.rows run.key ≡ false
        → IsAlike e (Rows.add k.rows run) (write_run e run t)
    unfolding Rows.add
    write_run-IsAlike unused not_taken =
        subst (IsAlike e (Rows.add k.rows run)) (sym write_run-wrote) (record {
          kept = subst (IsKept e.number) (sym look_wrote) (grown-IsKept e.number run k v unused);
          rows = λ j.
              ap (λ k'. get k'.rows j) look_wrote
              ∙ grown_rows j
              ∙ sym (get-add k.rows run j v.numbered.below ∙ rw not_taken refl);
          sequence = ap (λ k'. k'.rows.sequence) look_wrote ∙ grown_sequence ∙ rw not_taken refl;
          answer = rw not_taken refl;
        })
