-- ===== src/Features/Generation/StartGenerationItemRender.antt =====
-- src/app/features/generation/start_generation_item_render.py. A message that names an id leaves it
-- out, since an id has no text here.
pub mod Stuck
use softbox_ai.Prelude.{ℕ, String, Option, none, some, List, [], ◌∷◌}
use softbox_ai.Errors.{not_found}
use softbox_ai.Ids.{Uuid, Instant}
use softbox_ai.Json.{JsonDict, uuid_at}
use softbox_ai.Table.{get, save}
use softbox_ai.Entities.GenerationItem.{GenerationItem, mark_running}
use softbox_ai.Entities.Asset.{Asset}
use softbox_ai.Services.TaskBackoff.{Jitter}
use softbox_ai.TaskQueue.Store.{TaskQueueJob}
use softbox_ai.UnitOfWork.{
  Db, Tx, pure, lift, gets, found, modify, item_row, asset_row, ◌>>=◌, ◌>>◌,
}
use softbox_ai.Features.Queue.{claim_job, fail_job}

abbrev pub job_type : String
job_type = "generation_item.render_requested"

abbrev pub claimed_by : String
claimed_by = "generation-render-worker"

pub record GenerationRenderContext : Type 0 where
  pub job_id : Uuid
  pub item_id : Uuid
  pub prompt : String
  pub model : String
  pub seed : ℕ
  pub model_params : JsonDict
  pub reference_storage_keys : List String

-- The loop over `input_asset_ids`.
unfoldable pub reference_keys : Uuid → List Uuid → Tx (List String)
reference_keys tenant [] = pure []
reference_keys tenant (id ∷ ids) = do
  asset ← found (λ db. get tenant id db.assets) (not_found "Reference asset not found.")
  keys ← reference_keys tenant ids
  pure (asset.storage_key ∷ keys)

unfoldable pub start_item :
    Uuid
    → Instant
    → Jitter
    → TaskQueueJob
    → Option GenerationItem
    → Tx (Option GenerationRenderContext)
start_item tenant now scaled job none = do
  status ← fail_job tenant job.id "generation_item not found" now scaled
  pure none
start_item tenant now scaled job (some item) = do
  keys ← reference_keys tenant item.input_asset_ids
  item' ← lift (mark_running item)
  modify (λ db. record db { generation_items = save item' db.generation_items })
  pure (
      some (record {
        job_id = job.id;
        item_id = item'.id;
        prompt = item'.prompt_rendered;
        model = item'.model;
        seed = item'.seed;
        model_params = item'.model_params;
        reference_storage_keys = keys;
      }))

unfoldable pub start_claimed :
    Uuid → Instant → Jitter → Option TaskQueueJob → Tx (Option GenerationRenderContext)
start_claimed tenant now scaled none = pure none
start_claimed tenant now scaled (some job) = do
  id ← lift (uuid_at "generation_item_id" job.payload)
  item ← gets (λ db. get tenant id db.generation_items)
  start_item tenant now scaled job item

unfoldable pub start_generation_item_render :
    Uuid → Instant → Jitter → Tx (Option GenerationRenderContext)
start_generation_item_render tenant now scaled = do
  job ← claim_job tenant claimed_by job_type now
  start_claimed tenant now scaled job
