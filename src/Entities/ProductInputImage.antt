-- ===== src/Entities/ProductInputImage.antt =====
-- src/app/entities/product_input_image.py: a captured input photo of a product or variant.
pub mod Lifecycle
use softbox_ai.Prelude.{String, Option, none, some, Bool, true, false, if◌then◌else◌}
use softbox_ai.Errors.{Result, ok, err, cannot}
use softbox_ai.Ids.{Uuid, Instant}

pub data InputImageStatus : Type 0 where
  captured validating normalising ready rejected : InputImageStatus

pub value : InputImageStatus → String
value captured = "captured"
value validating = "validating"
value normalising = "normalising"
value ready = "ready"
value rejected = "rejected"

pub record ProductInputImage : Type 0 where
  pub id : Uuid
  pub tenant_id : Uuid
  pub product_id : Uuid
  pub variant_id : Option Uuid
  pub input_image_slot_id : Uuid
  pub asset_id : Uuid
  pub normalised_asset_id : Option Uuid
  pub status : InputImageStatus
  pub rejection_reason : Option String
  pub created_by : Uuid
  pub created_at : Instant
  pub updated_at : Instant

-- `new_id` is what `new_product_input_image_id()` draws.
unfoldable pub create :
    (new_id tenant_id product_id input_image_slot_id asset_id created_by : Uuid) (now : Instant)
    (variant_id : Option Uuid)
    → ProductInputImage
create new_id tenant product slot asset user now variant = record {
  id = new_id;
  tenant_id = tenant;
  product_id = product;
  variant_id = variant;
  input_image_slot_id = slot;
  asset_id = asset;
  normalised_asset_id = none;
  status = captured;
  rejection_reason = none;
  created_by = user;
  created_at = now;
  updated_at = now;
}

abbrev pub is_captured : InputImageStatus → Bool
is_captured captured = true
is_captured _ = false

abbrev pub is_validating : InputImageStatus → Bool
is_validating validating = true
is_validating _ = false

abbrev pub is_ready : InputImageStatus → Bool
is_ready ready = true
is_ready _ = false

unfoldable pub start_validating : Instant → ProductInputImage → Result ProductInputImage
start_validating now image =
    if is_captured image.status
    then ok (record image { status = validating; updated_at = now })
    else err (cannot "start validation" (value image.status))

unfoldable pub mark_ready : Instant → ProductInputImage → Result ProductInputImage
mark_ready now image =
    if is_validating image.status
    then ok (record image { status = ready; rejection_reason = none; updated_at = now })
    else err (cannot "mark ready" (value image.status))

unfoldable pub mark_rejected : String → Instant → ProductInputImage → Result ProductInputImage
mark_rejected reason now image =
    if is_validating image.status
    then ok (record image { status = rejected; rejection_reason = some reason; updated_at = now })
    else err (cannot "reject" (value image.status))
