-- ===== src/Features/Generation/FailGenerationItemRender/Agreement.antt =====
-- About a failed attempt and its job.
use softbox_ai.Prelude.{
  ◌+◌, ◌≤◌, ◌≡◌, ◌⊎◌, ◌↔◌, inl, inr, String, some, Bool-cases, refl, arith, leb, ◌<+>◌,
}
use softbox_ai.Errors.{ok}
use softbox_ai.Ids.{Uuid, Instant}
use softbox_ai.Table.{get, save}
use softbox_ai.Table.Laws.{key-get, get-save_self}
use softbox_ai.Entities.GenerationItem.{
  GenerationItem, running, failed, dead, mark_failed, mark_dead,
}
use softbox_ai.Services.TaskBackoff.{Jitter}
use softbox_ai.TaskQueue.Store
use softbox_ai.TaskQueue.Store.{TaskQueueJob, job_row, failed_once, is_dead, fail}
use softbox_ai.UnitOfWork.{Db, item_row, record_audit}
use softbox_ai.Features.Generation.FailGenerationItemRender.{
  fail_generation_item_render, failure_entry, bury,
}

-- Both are dead, or the item stands failed and its job is pending again.
abbrev pub Agree : GenerationItem → TaskQueueJob → Type 0
Agree item j =
    ((item.status ≡ dead) × (j.status ≡ Store.JobStatus.dead))
    ⊎ ((item.status ≡ failed) × (j.status ≡ Store.JobStatus.pending))

abbrev pub after_failure : String → String → GenerationItem → GenerationItem
after_failure code detail item = record item {
  status = failed;
  error_code = some code;
  error_detail = some detail;
}

module _ (tenant id job_id : Uuid) (code detail : String) (now : Instant) (scaled : Jitter)
    (db : Db) (item : GenerationItem) (j : TaskQueueJob)
    (e : get tenant id db.generation_items ≡ some item)
    (f : get tenant job_id db.task_queue ≡ some j) (s : item.status ≡ running) where
  abbrev pub failed_item : GenerationItem
  failed_item = after_failure code detail item

  abbrev pub job' : TaskQueueJob
  job' = failed_once (code <+> ": " <+> detail) now scaled j

  abbrev pub Outcome : Type 0
  Outcome =
      (item' : GenerationItem) × (j' : TaskQueueJob) × (db' : Db) × (fail_generation_item_render
          tenant id job_id code detail now scaled db
        ≡ ok (item', db'))
      × (get tenant id db'.generation_items ≡ some item')
      × (get tenant job_id db'.task_queue ≡ some j')
      × Agree item' j'
      × ((item'.error_code ≡ some code) × (item'.error_detail ≡ some detail))
      × ((j'.status ≡ Store.JobStatus.dead) ↔ (j.max_attempts ≤ j.attempts + 1))

  stored : get tenant id (save failed_item db.generation_items) ≡ some failed_item
  stored =
      get-save_self tenant id db.generation_items item failed_item e
        (key-get tenant id db.generation_items item e).0
        (key-get tenant id db.generation_items item e).1

  queued : get tenant job_id (save job' db.task_queue) ≡ some job'
  queued =
      let l = key-get tenant job_id db.task_queue j f in
      get-save_self tenant job_id db.task_queue j job' f (ground arith) (ground arith)

  -- A render failure of a running item, whose job exists, is always recorded: the call returns the
  -- item with its error and stores it; it is dead with a dead job, or failed with a job that is
  -- pending again, and it is dead exactly when the job's retry budget is used up.
  pub fail_generation_item_render-Agree : Outcome
  unfolding fail_generation_item_render bury fail mark_failed mark_dead
  fail_generation_item_render-Agree = elim (Bool-cases (leb j.max_attempts (j.attempts + 1))) [
    | inl over ↦
        let dead_item = record failed_item { status = dead } in
        (
          dead_item,
          job',
          record_audit (failure_entry tenant code dead_item now) (record db {
            task_queue = save job' db.task_queue;
            generation_items = save dead_item (save failed_item db.generation_items);
          }),
          rw (e, s, f, over) refl,
          get-save_self tenant id (save failed_item db.generation_items) failed_item dead_item
              stored (key-get tenant id db.generation_items item e).0
              (key-get tenant id db.generation_items item e).1,
          queued,
          ground arith,
          (refl, refl),
          (λ h. ground arith, λ h. ground arith),
        )
    | inr more ↦ (
      failed_item,
      job',
      record_audit (failure_entry tenant code failed_item now) (record db {
        task_queue = save job' db.task_queue;
        generation_items = save failed_item db.generation_items;
      }),
      rw (e, s, f, more) refl,
      stored,
      queued,
      ground arith,
      (refl, refl),
      (λ h. ground arith, λ h. ground arith),
    )
  ]
