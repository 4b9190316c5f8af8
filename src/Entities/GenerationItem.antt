-- ===== src/Entities/GenerationItem.antt =====
-- src/app/entities/generation_item.py: one attempt at rendering one catalog image slot.
pub mod Lifecycle
use softbox_ai.Prelude.{ℕ, String, Option, none, some, List, Bool, true, false, ◌||◌, if◌then◌else◌}
use softbox_ai.Errors.{Result, ok, err, cannot}
use softbox_ai.Ids.{Uuid, Instant}
use softbox_ai.Json.{JsonDict}

pub data GenerationItemStatus : Type 0 where
  pending running succeeded failed dead : GenerationItemStatus

pub value : GenerationItemStatus → String
value pending = "pending"
value running = "running"
value succeeded = "succeeded"
value failed = "failed"
value dead = "dead"

pub record GenerationItem : Type 0 where
  pub id : Uuid
  pub tenant_id : Uuid
  pub request_id : Uuid
  pub catalog_image_slot_id : Uuid
  pub template_id : Uuid
  pub attempt_no : ℕ
  pub status : GenerationItemStatus
  pub provider : String
  pub model : String
  pub model_params : JsonDict
  pub seed : ℕ
  pub prompt_rendered : String
  pub prompt_version : String
  pub input_asset_ids : List Uuid
  pub output_asset_id : Option Uuid
  pub cost_micros : Option ℕ
  pub latency_ms : Option ℕ
  pub error_code : Option String
  pub error_detail : Option String
  pub created_at : Instant

-- `new_id` is what `new_generation_item_id()` draws.
unfoldable pub create :
    (new_id tenant_id request_id catalog_image_slot_id template_id : Uuid) (attempt_no : ℕ)
    (provider model : String) (model_params : JsonDict) (seed : ℕ)
    (prompt_rendered prompt_version : String) (input_asset_ids : List Uuid) (now : Instant)
    → GenerationItem
create new_id tenant request slot template attempt provider model params seed prompt version inputs
      now =
    record {
      id = new_id;
      tenant_id = tenant;
      request_id = request;
      catalog_image_slot_id = slot;
      template_id = template;
      attempt_no = attempt;
      status = pending;
      provider = provider;
      model = model;
      model_params = params;
      seed = seed;
      prompt_rendered = prompt;
      prompt_version = version;
      input_asset_ids = inputs;
      output_asset_id = none;
      cost_micros = none;
      latency_ms = none;
      error_code = none;
      error_detail = none;
      created_at = now;
    }

abbrev pub is_pending : GenerationItemStatus → Bool
is_pending pending = true
is_pending _ = false

abbrev pub is_running : GenerationItemStatus → Bool
is_running running = true
is_running _ = false

abbrev pub is_succeeded : GenerationItemStatus → Bool
is_succeeded succeeded = true
is_succeeded _ = false

abbrev pub is_failed : GenerationItemStatus → Bool
is_failed failed = true
is_failed _ = false

abbrev pub is_dead : GenerationItemStatus → Bool
is_dead dead = true
is_dead _ = false

unfoldable pub mark_running : GenerationItem → Result GenerationItem
mark_running item =
    if is_pending item.status || is_failed item.status
    then ok (record item { status = running })
    else err (cannot "start running" (value item.status))

unfoldable pub mark_succeeded : Uuid → ℕ → ℕ → GenerationItem → Result GenerationItem
mark_succeeded asset cost latency item =
    if is_running item.status
    then ok (record item {
      status = succeeded;
      output_asset_id = some asset;
      cost_micros = some cost;
      latency_ms = some latency;
    })
    else err (cannot "succeed" (value item.status))

unfoldable pub mark_failed : String → String → GenerationItem → Result GenerationItem
mark_failed code detail item =
    if is_running item.status
    then ok (record item { status = failed; error_code = some code; error_detail = some detail })
    else err (cannot "fail" (value item.status))

unfoldable pub mark_dead : GenerationItem → Result GenerationItem
mark_dead item =
    if is_failed item.status
    then ok (record item { status = dead })
    else err (cannot "deadletter" (value item.status))
