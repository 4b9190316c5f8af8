-- ===== src/Features/Publishing/FailPublicationPublish/Agreement.antt =====
-- About a failed publication and its job.
use softbox_ai.Prelude.{◌+◌, ◌≡◌, ◌⊎◌, String, some, refl, arith, ◌≤◌, ◌↔◌, if◌then◌else◌}
use softbox_ai.Errors.{ok}
use softbox_ai.Ids.{Uuid, Instant}
use softbox_ai.Table.{get, save}
use softbox_ai.Table.Laws.{key-get, get-save_self}
use softbox_ai.Entities.Publication.{Publication, dispatching, failed, dead, record_attempt_failure}
use softbox_ai.Services.TaskBackoff.{Jitter}
use softbox_ai.TaskQueue.Store
use softbox_ai.TaskQueue.Store.{TaskQueueJob, job_row, failed_once, is_dead, fail}
use softbox_ai.UnitOfWork.{Db, publication_row, record_audit}
use softbox_ai.Features.Publishing.FailPublicationPublish.{fail_publication_publish, failure_entry}

-- Both say that it is over, or both that a retry is coming.
abbrev pub Agree : Publication → TaskQueueJob → Type 0
Agree p j =
    ((p.status ≡ dead) × (j.status ≡ Store.JobStatus.dead))
    ⊎ ((p.status ≡ failed) × (j.status ≡ Store.JobStatus.pending))

-- The rows that the transaction writes.
abbrev after_failure : String → Instant → TaskQueueJob → Publication → Publication
after_failure error now j' p = record p {
  attempts = p.attempts + 1;
  last_error = some error;
  status = if is_dead j'.status then dead else failed;
  updated_at = now;
}

module _ (tenant id job_id : Uuid) (error : String) (now : Instant) (scaled : Jitter) where
  -- A failed publish of a dispatching publication, whose job exists, is always recorded: the call
  -- returns the publication with one attempt more and stores it, and it is dead with a dead job, or
  -- failed with a job that is pending again. Which of the two, the job's retry budget decides.
  pub fail_publication_publish-Agree :
      (db : Db) (p : Publication) (j : TaskQueueJob)
      → get tenant id db.publications ≡ some p
      → get tenant job_id db.task_queue ≡ some j
      → p.status ≡ dispatching
      → (p' : Publication) × (j' : TaskQueueJob) × (db' : Db) × (fail_publication_publish tenant id
            job_id error now scaled db
          ≡ ok (p', db'))
        × (p'.attempts ≡ p.attempts + 1)
        × (get tenant id db'.publications ≡ some p')
        × (get tenant job_id db'.task_queue ≡ some j')
        × Agree p' j'
        × ((j'.status ≡ Store.JobStatus.dead) ↔ (j.max_attempts ≤ j.attempts + 1))
  unfolding fail_publication_publish fail record_attempt_failure
  fail_publication_publish-Agree db p j e f s =
      let j' = failed_once error now scaled j in
      let p' = after_failure error now j' p in
      let k = key-get tenant id db.publications p e in
      let l = key-get tenant job_id db.task_queue j f in
      let stored = get-save_self tenant id db.publications p p' e k.0 k.1 in
      let queued = get-save_self tenant job_id db.task_queue j j' f (ground arith) (ground arith) in
      (
        p',
        j',
        record_audit (failure_entry tenant p' now) (record db {
          task_queue = save j' db.task_queue;
          publications = save p' db.publications;
        }),
        rw (e, f, s) refl,
        refl,
        stored,
        queued,
        ground arith,
        (λ h. ground arith, λ h. ground arith),
      )
