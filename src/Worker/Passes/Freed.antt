-- ===== src/Worker/Passes/Freed.antt =====
-- What a pass of src/queuefy/worker.py brings back: the run of a worker that stopped answering.
use queuefy.Prelude.{Option}
use queuefy.Prelude.Text.{Text}
use queuefy.Run.{Run}
use queuefy.Worker.Passes.{Worker}
