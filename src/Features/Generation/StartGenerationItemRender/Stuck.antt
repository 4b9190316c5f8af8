-- ===== src/Features/Generation/StartGenerationItemRender/Stuck.antt =====
-- About the claim of a render job whose item is running.
use softbox_ai.Prelude.{◌≡◌, ◌⊎◌, inl, inr, some, refl}
use softbox_ai.Errors.{AppError, Result, ok, err, cannot}
use softbox_ai.Ids.{Uuid, Instant}
use softbox_ai.Json.{uuid_at}
use softbox_ai.Table.{get}
use softbox_ai.Entities.GenerationItem.{GenerationItem, value, running, mark_running}
use softbox_ai.Services.TaskBackoff.{Jitter}
use softbox_ai.TaskQueue.Store.{TaskQueueJob, Jobs, claim}
use softbox_ai.UnitOfWork.{Db, transact, item_row}
use softbox_ai.Features.Generation.StartGenerationItemRender.{
  start_generation_item_render, start_claimed, start_item, reference_keys, job_type, claimed_by,
}

Result-cases {ℓ} :
    {A : Type ℓ} (r : Result A) → ((a : A) × (r ≡ ok a)) ⊎ ((e : AppError) × (r ≡ err e))
Result-cases (ok a) = inl (a, refl)
Result-cases (err e) = inr (e, refl)

start_item-running :
    (tenant : Uuid) (now : Instant) (scaled : Jitter) (job : TaskQueueJob) (item : GenerationItem)
    (db : Db)
    → item.status ≡ running
    → (e : AppError) × (start_item tenant now scaled job (some item) db ≡ err e)
unfolding start_item mark_running
start_item-running tenant now scaled job item db s =
    elim (Result-cases (reference_keys tenant item.input_asset_ids db)) [
      | inl ((keys, db'), p) ↦ (cannot "start running" (value item.status), rw (p, s) refl)
      | inr (e, p) ↦ (e, rw p refl)
    ]

-- If the job that a poll claims names an item that is already running, as after a worker's crash
-- when the reaper has made the job pending again, the poll raises and the claim is rolled back: the
-- tables are left as they were, so that the next poll meets the same job in the same state.
pub start_generation_item_render-stuck :
    (tenant : Uuid) (now : Instant) (scaled : Jitter) (db : Db) (job : TaskQueueJob) (jobs : Jobs)
    (id : Uuid) (item : GenerationItem)
    → claim tenant claimed_by (some job_type) now db.task_queue ≡ (some job, jobs)
    → uuid_at "generation_item_id" job.payload ≡ ok id
    → get tenant id db.generation_items ≡ some item
    → item.status ≡ running
    → (e : AppError) × (transact (start_generation_item_render tenant now scaled) db ≡ (err e, db))
unfolding start_generation_item_render start_claimed transact
start_generation_item_render-stuck tenant now scaled db job jobs id item c u g s =
    let db₁ : Db = record db { task_queue = jobs } in
    let (e, p) = start_item-running tenant now scaled job item db₁ s in (e, rw (c, u, g, p) refl)
