-- ===== src/Lib.antt =====
-- queuefy: a queue of runs that survive the process, and the workers that take them.
--
-- An application (src/queuefy/app.py) knows tasks by name and writes runs (src/queuefy/run.py) to a
-- store (src/queuefy/store/). A worker (src/queuefy/worker.py) claims runs that are due, holds each
-- under an attempt and a lease, and writes how it ended; a lease that runs out is taken back by
-- whoever sweeps next. A recurring task has a trigger (src/queuefy/trigger.py), an interval or a cron
-- expression (src/queuefy/cron.py), that names its next slot, and every worker writes the slots that
-- came due under a key that leaves one run of each.
--
-- The files, and the code they are about:
--   Prelude            shared names, tests, integers, texts and association lists
--   Value              the Python values that reach the program from outside
--   Errors             src/queuefy/errors.py, and results in place of exceptions
--   Retry              src/queuefy/retry.py; Delays is growth_for and delay_for
--   Run                src/queuefy/run.py
--   Store.Base         the limits of src/queuefy/store/base.py
--   Store.Memory       src/queuefy/store/memory.py: Rows (add, get, find, count), Claiming (claim),
--                      Holding (heartbeat, complete, fail, retry_later, release), Sweeping (reclaim,
--                      cancel, purge); what each does is in its Exact, and what a claim answers with
--                      in Claiming.Answered; Life is the step relation of one run, Invariant and
--                      History are about every sequence of calls
--   Store.Contract     what every store of src/queuefy/store/base.py promises of its rows; History is
--                      about every sequence of calls of a store that keeps it
--   Store.Sql          src/queuefy/store/sqlalchemy.py: Columns (to_values, to_run), Instants
--                      (UtcDateTime), Engine (the statements it asks for), Contention
--                      (under_contention), Writing (insert, the conditional writes, the reads),
--                      Claiming (claim, take), Sweeping (sweep, take_back, purge), Calls (every
--                      method as a call of the contract); Effects and Underway say what statements
--                      do to rows
--   Store.Redis        src/queuefy/store/redis.py: Opening (__init__), Places (stamp, waiting_in),
--                      Hashes (to_hash, to_run), Commands (the commands it asks for), Writing (ADD,
--                      SETTLE, HEARTBEAT, CANCEL and their methods), Reads, Claiming (CLAIM), Sweeping
--                      (RECLAIM, PURGE), Calls (every method as a call of the contract); Kept is the
--                      invariant of the keys, Kept.Moves and Kept.Growth say what commands do to it
--   Calendar           the part of Python's datetime that the code uses
--   Cron               src/queuefy/cron.py: Text and Values (the text methods and sets it calls),
--                      Parse, Next; Times, Walk, First, Bounds, Parsed and Answer are about them
--   Clock              src/queuefy/clock.py
--   Trigger            src/queuefy/trigger.py: Interval, which Slots is about, and Cron
--   Task               src/queuefy/task.py
--   App                src/queuefy/app.py: Payload (exact, as_written), Guards, Registry (register,
--                      policed, task_for), Enqueue (build, store_once, enqueue_at), Recurring
--                      (materialize), Asking (task, enqueue, cancel, get, find, count); Shared is the
--                      memory store as the application calls it
--   Worker             src/queuefy/worker.py: Messages (cut, storable, escaped, keepable, described),
--                      Endings (settle, after, and release as hand_back), Attempt (attempt,
--                      answered, broke, execute), Passes (run_once, tidy, free; Kept and Freed are
--                      about a pass), Start (__init__, worker_name), Beats (push), Listeners
--                      (announce), Waits (waiting)
--
-- State is passed explicitly. A pass and an attempt of a worker are each taken without the calls of
-- others in between. The lock of the memory store makes each of its methods one step, so a
-- history is a list of calls (Life.Call, History.after), of any workers in any order. Instants are
-- counts of microseconds since the first one that a datetime holds; the cron part works on the wall
-- clock instead, as the code does. Whole numbers are unbounded there and here; subtraction of a count
-- is written out over signed integers. A float is the exact fraction it stands for, or a special
-- value. The application sees the store as a record of two calls, `add` and `find`.
--
-- The database is a record of statements over one table (Engine), whose documented meaning is IsSql:
-- the number of a new row lies past every number a row was given, and numbers may be lost between, to
-- an insert that was refused or rolled back. What becomes of a transaction is a verdict that is not up
-- to this code: the server carries a list of them, any list. It goes through, or is refused and rolled
-- back whole, or is committed and its answer is lost, which reaches the code as an error of the driver
-- and never as one of the two codes of innodb, which its server documents as rolled back. A statement
-- sees no write of another transaction between two of its own; calls of different workers are the
-- steps of a history.
--
-- Redis is a record of commands on one set of keys (Commands), whose documented meaning is IsRedis; a
-- score is a double, of which only is used that it keeps the order of whole numbers. A script is one
-- step of the keys. A hash is kept as the run that to_run reads of it, which Hashes is about, so that
-- an empty text is nothing. A number in a set whose hash is gone is a case of every script.
--
-- Loops are structural: over the entries of the store, over the 41 * 366 days of the cron search,
-- over the three tries of `store_once`, over the eight of `under_contention`. The
-- digits of a whole number are taken on fuel of 4300, which is the most that Python turns into text.
--
-- Parameters, for what is not code of the repository: which characters are white space or digits
-- (Cron.Text.Unicode), how Python writes a float key down (repr_float), how `timedelta` rounds a
-- number of seconds to microseconds (span_of), how long a run waits before another attempt
-- (waiting; Worker.Waits is what the code hands over for it), the arithmetic of Python's numbers in
-- it (Numbers) and the random draw, how Python and json print and read the values of a hash (Texts),
-- how Python makes a float of the seconds of a span (total_seconds), what a handler comes to (Met), and
-- the words of an exception.
--
-- Not modelled: the creation of the table and the driver under src/queuefy/store/sqlalchemy.py,
-- the texts that src/queuefy/store/redis.py and its scripts hand each other, the loop, the waits, the
-- threads and the tasks of src/queuefy/worker.py, and the lifespan of src/queuefy/asgi.py.
-- Python's limit on the depth of a value, and the text of an exception, are left out.
pub mod Prelude
pub mod Value
pub mod Retry
pub mod Run
pub mod Store
pub mod Errors
pub mod Calendar
pub mod Cron
pub mod App
pub mod Clock
pub mod Task
pub mod Trigger
pub mod Worker
