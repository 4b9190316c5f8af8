-- ===== src/Entities/CatalogImage.antt =====
-- src/app/entities/catalog_image.py: the current image of one (variant, catalog slot).
pub mod Lifecycle
use softbox_ai.Prelude.{String, Option, none, some, Bool, true, false, is_none, if◌then◌else◌}
use softbox_ai.Errors.{Result, ok, err, cannot, validation_error}
use softbox_ai.Ids.{Uuid, Instant}
use softbox_ai.Json.{JsonDict}

pub data CatalogImageStatus : Type 0 where
  pending_qc qc_failed human_review pending_approval approved rejected : CatalogImageStatus

pub value : CatalogImageStatus → String
value pending_qc = "pending_qc"
value qc_failed = "qc_failed"
value human_review = "human_review"
value pending_approval = "pending_approval"
value approved = "approved"
value rejected = "rejected"

pub record CatalogImage : Type 0 where
  pub id : Uuid
  pub tenant_id : Uuid
  pub variant_id : Uuid
  pub catalog_image_slot_id : Uuid
  pub asset_id : Uuid
  pub generation_item_id : Uuid
  pub status : CatalogImageStatus
  pub qc_result : Option JsonDict
  pub is_primary : Bool
  pub approved_by : Option Uuid
  pub approved_at : Option Instant
  pub rejection_reason : Option String
  pub superseded_by : Option Uuid
  pub created_at : Instant
  pub updated_at : Instant

-- `new_id` is what `new_catalog_image_id()` draws.
unfoldable pub create :
    (new_id tenant_id variant_id catalog_image_slot_id asset_id generation_item_id : Uuid)
    (now : Instant) (is_primary : Bool)
    → CatalogImage
create new_id tenant variant slot asset item now primary = record {
  id = new_id;
  tenant_id = tenant;
  variant_id = variant;
  catalog_image_slot_id = slot;
  asset_id = asset;
  generation_item_id = item;
  status = pending_qc;
  qc_result = none;
  is_primary = primary;
  approved_by = none;
  approved_at = none;
  rejection_reason = none;
  superseded_by = none;
  created_at = now;
  updated_at = now;
}

abbrev pub is_pending_qc : CatalogImageStatus → Bool
is_pending_qc pending_qc = true
is_pending_qc _ = false

abbrev pub is_qc_failed : CatalogImageStatus → Bool
is_qc_failed qc_failed = true
is_qc_failed _ = false

abbrev pub is_pending_approval : CatalogImageStatus → Bool
is_pending_approval pending_approval = true
is_pending_approval _ = false

-- The message names the image's id; an id has no text here.
unfoldable pub mark_superseded : Uuid → Instant → CatalogImage → Result CatalogImage
mark_superseded by now image =
    if is_none image.superseded_by
    then ok (record image { superseded_by = some by; updated_at = now })
    else err (validation_error "Catalog image is already superseded.")

unfoldable pub mark_qc_passed : JsonDict → Instant → CatalogImage → Result CatalogImage
mark_qc_passed result now image =
    if is_pending_qc image.status
    then ok (record image { status = pending_approval; qc_result = some result; updated_at = now })
    else err (cannot "pass QC" (value image.status))

unfoldable pub mark_qc_failed : JsonDict → Instant → CatalogImage → Result CatalogImage
mark_qc_failed result now image =
    if is_pending_qc image.status
    then ok (record image { status = qc_failed; qc_result = some result; updated_at = now })
    else err (cannot "fail QC" (value image.status))

unfoldable pub mark_human_review : String → Instant → CatalogImage → Result CatalogImage
mark_human_review reason now image =
    if is_qc_failed image.status
    then ok
        (record image { status = human_review; rejection_reason = some reason; updated_at = now })
    else err (cannot "escalate to human review" (value image.status))

unfoldable pub approve : Option Uuid → Instant → CatalogImage → Result CatalogImage
approve by now image =
    if is_pending_approval image.status
    then ok (record image {
      status = approved;
      approved_by = by;
      approved_at = some now;
      updated_at = now;
    })
    else err (cannot "approve" (value image.status))

unfoldable pub reject : String → Instant → CatalogImage → Result CatalogImage
reject reason now image =
    if is_pending_approval image.status
    then ok (record image { status = rejected; rejection_reason = some reason; updated_at = now })
    else err (cannot "reject" (value image.status))
