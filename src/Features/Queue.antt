-- ===== src/Features/Queue.antt =====
-- `uow.task_queue` inside a transaction: src/app/services/ports/task_queue.py, as the use cases call
-- it.
use softbox_ai.Prelude.{String, Option, some}
use softbox_ai.Errors.{Result, ok, err}
use softbox_ai.Ids.{Uuid, Instant}
use softbox_ai.Json.{JsonDict}
use softbox_ai.Services.TaskBackoff.{Jitter}
use softbox_ai.TaskQueue.Store.{
  TaskQueueJob, Jobs, JobStatus, claim, fail, complete, enqueue, default_max_attempts,
}
use softbox_ai.UnitOfWork.{Db, Tx, modify}

abbrev pub with_jobs : {A : Type 0} → Db → A × Jobs → Result (A × Db)
with_jobs db (a, jobs) = ok (a, record db { task_queue = jobs })

abbrev pub with_failed : Db → Result (JobStatus × Jobs) → Result (JobStatus × Db)
with_failed db (ok done) = with_jobs db done
with_failed db (err e) = err e

abbrev pub claim_job : Uuid → String → String → Instant → Tx (Option TaskQueueJob)
claim_job tenant by type now db = with_jobs db (claim tenant by (some type) now db.task_queue)

abbrev pub fail_job : Uuid → Uuid → String → Instant → Jitter → Tx JobStatus
fail_job tenant id error now scaled db =
    with_failed db (fail tenant id error now scaled db.task_queue)

abbrev pub complete_job : Uuid → Uuid → Instant → Tx (Unit {0})
complete_job tenant id now =
    modify (λ db. record db { task_queue = complete tenant id now db.task_queue })

abbrev pub enqueue_job : Uuid → Uuid → String → JsonDict → Instant → Tx (Unit {0})
enqueue_job new_id tenant type payload now = modify (λ db. record db {
  task_queue = enqueue new_id tenant type payload now now default_max_attempts db.task_queue;
})
