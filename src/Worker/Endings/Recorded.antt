-- ===== src/Worker/Endings/Recorded.antt =====
-- What a failed attempt becomes in the store.
use queuefy.Prelude.{
  ℕ, ◌+◌, ◌≤◌, ◌≡◌, refl, ap, sym, ◌∙◌, inl, inr, Bool, true, not, ◌&&◌, some, arith, if◌then◌else◌,
  Bool-cases, ==_refl, subst,
}
use queuefy.Prelude.Int.{ℤ, pos}
use queuefy.Prelude.Text.{Text}
use queuefy.Errors.{ok}
use queuefy.Run.{Run, Instant, exhausted}
use queuefy.Clock.{in_range, widest_slot}
use queuefy.Store.Memory.Rows.{MemoryStore, get}
use queuefy.Store.Memory.Holding.{held, on_held, gave_up, requeued, fail, retry_later, requeue}
use queuefy.Store.Memory.Holding.Exact.{held_iff, get-on_held, on_held_cases}
use queuefy.Worker.Messages.{described}
use queuefy.Worker.Endings.{Failure, Ending, settle, settle_under}

-- The attempt that holds a run changes it, and the store says so.
pub on_held_change :
    (f : Run → Run) (s : MemoryStore) (id : ℕ) (worker : Text) (attempt : ℤ) (run : Run)
    → held s id worker attempt ≡ some run
    → ((on_held f s id worker attempt).1 ≡ true)
      × (get (on_held f s id worker attempt).0 id ≡ some (f run))
on_held_change f s id worker attempt run h = (
  elim (on_held_cases f s id worker attempt) [
    | inl (_, _, e) ↦ rw e refl
    | inr (absent, _) ↦ absurd (cc)
  ],
  get-on_held f s id worker attempt id
      ∙ rw (==_refl id, h, ((held_iff s id worker attempt run).0 h).0) refl,
)

-- What `settle` does to a run that its attempt holds.
abbrev pub became : Bool → Instant → Instant → Text × Text → Run → Run
became back due_at now (description, kind) run =
    if back then requeued due_at description kind (pos 0) run else gave_up now description kind run

pub in_range_here : (n : ℕ) → n ≤ widest_slot → in_range (pos n) ≡ ok n
unfolding in_range
in_range_here n h = ground arith

-- The answer and the row that `settle` is to leave.
abbrev pub IsSettled : (Run → ℕ) → Run → Run → ℕ → Failure → Bool → Instant → Ending → Type 0
IsSettled waiting run stored id error retryable now x =
    let back = retryable && not (exhausted run) in
    (x.1 ≡ ok (some back))
    × (get x.0 id
        ≡ some (became back (now + waiting run) now (described error.spoken error.kind) stored))

pub settle_under-IsSettled :
    (name : Text) (waiting : Run → ℕ) (s : MemoryStore) (run stored : Run) (id : ℕ)
    (error : Failure) (retryable : Bool) (now : Instant)
    → held s id name run.attempts ≡ some stored
    → now + waiting run ≤ widest_slot
    → IsSettled waiting run stored id error retryable now
        (settle_under name waiting (some id) s run error retryable now)
unfolding settle_under retry_later requeue fail
settle_under-IsSettled name waiting s run stored id error retryable now holds room =
    let due : in_range (pos (now + waiting run)) ≡ ok (now + waiting run) =
      in_range_here (now + waiting run) room in
    let (description, kind) = described error.spoken error.kind in
    elim (Bool-cases (retryable && not (exhausted run))) [
      | inl back ↦
          let (taken, row) =
            on_held_change (requeued (now + waiting run) description kind (pos 0)) s id name
              run.attempts stored holds in
          rw (back, due, taken) (ap (λ b. ok (some b)) back, row)
      | inr over ↦
          let (taken, row) =
            on_held_change (gave_up now description kind) s id name run.attempts stored holds in
          rw (over, taken) (refl, row)
    ]

-- A failed attempt that still holds its run is answered for by `settle`: where another attempt may
-- help and the run has one left it waits again, due when its wait is over, and otherwise it is over
-- as failed now; the message is the one a store takes, and the answer says which of the two it was.
pub settle-IsSettled :
    (name : Text) (waiting : Run → ℕ) (s : MemoryStore) (run stored : Run) (id : ℕ)
    (error : Failure) (retryable : Bool) (now : Instant)
    → run.id ≡ some id
    → held s id name run.attempts ≡ some stored
    → now + waiting run ≤ widest_slot
    → IsSettled waiting run stored id error retryable now
        (settle name waiting s run error retryable now)
unfolding settle
settle-IsSettled name waiting s run stored id error retryable now here holds room =
    subst
      (λ o.
        IsSettled waiting run stored id error retryable now
          (settle_under name waiting o s run error retryable now))
      (sym here)
      (settle_under-IsSettled name waiting s run stored id error retryable now holds room)
