-- ===== src/Entities/GenerationRequest.antt =====
-- src/app/entities/generation_request.py: one "Save & Generate", fanned out into generation items.
pub mod Lifecycle
use softbox_ai.Prelude.{String, Option, none, some, Bool, true, false, if◌then◌else◌}
use softbox_ai.Errors.{Result, ok, err, cannot}
use softbox_ai.Ids.{Uuid, Instant}
use softbox_ai.Json.{JsonDict}

pub data GenerationRequestStatus : Type 0 where
  queued running succeeded partially_failed failed cancelled : GenerationRequestStatus

pub value : GenerationRequestStatus → String
value queued = "queued"
value running = "running"
value succeeded = "succeeded"
value partially_failed = "partially_failed"
value failed = "failed"
value cancelled = "cancelled"

pub record GenerationRequest : Type 0 where
  pub id : Uuid
  pub tenant_id : Uuid
  pub product_id : Uuid
  pub variant_id : Uuid
  pub spec_version_id : Uuid
  pub status : GenerationRequestStatus
  pub settings_snapshot : JsonDict
  pub quota_reservation_id : Option Uuid
  pub requested_by : Uuid
  pub created_at : Instant
  pub completed_at : Option Instant

-- `new_id` is what `new_generation_request_id()` draws.
unfoldable pub create :
    (new_id tenant_id product_id variant_id spec_version_id : Uuid) (settings : JsonDict)
    (reservation : Option Uuid) (requested_by : Uuid) (now : Instant)
    → GenerationRequest
create new_id tenant product variant spec settings reservation user now = record {
  id = new_id;
  tenant_id = tenant;
  product_id = product;
  variant_id = variant;
  spec_version_id = spec;
  status = queued;
  settings_snapshot = settings;
  quota_reservation_id = reservation;
  requested_by = user;
  created_at = now;
  completed_at = none;
}

abbrev pub is_queued : GenerationRequestStatus → Bool
is_queued queued = true
is_queued _ = false

abbrev pub is_running : GenerationRequestStatus → Bool
is_running running = true
is_running _ = false

-- The parameter `now` is not read.
unfoldable pub mark_running : GenerationRequest → Result GenerationRequest
mark_running request =
    if is_queued request.status
    then ok (record request { status = running })
    else err (cannot "start running" (value request.status))

unfoldable pub mark_terminal :
    GenerationRequestStatus → Instant → GenerationRequest → Result GenerationRequest
mark_terminal status now request =
    if is_running request.status
    then ok (record request { status = status; completed_at = some now })
    else err (cannot "settle" (value request.status))

unfoldable pub mark_succeeded : Instant → GenerationRequest → Result GenerationRequest
unfolding mark_terminal
mark_succeeded now request = mark_terminal succeeded now request

unfoldable pub mark_partially_failed : Instant → GenerationRequest → Result GenerationRequest
unfolding mark_terminal
mark_partially_failed now request = mark_terminal partially_failed now request

unfoldable pub mark_failed : Instant → GenerationRequest → Result GenerationRequest
unfolding mark_terminal
mark_failed now request = mark_terminal failed now request
