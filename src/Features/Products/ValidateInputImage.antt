-- ===== src/Features/Products/ValidateInputImage.antt =====
-- src/app/features/products/start_input_image_validation.py and complete_input_image_validation.py.
use softbox_ai.Prelude.{ℕ, String, Option, none, some, Bool, true, false, str_eq, if◌then◌else◌}
use softbox_ai.Errors.{Result, not_found}
use softbox_ai.Ids.{Uuid, Instant}
use softbox_ai.Json.{Json, null, entry, empty, text}
use softbox_ai.Table.{get, save}
use softbox_ai.Entities.ProductInputImage.{
  ProductInputImage, value, start_validating, mark_ready, mark_rejected,
}
use softbox_ai.UnitOfWork.{
  Tx, pure, lift, found, modify, record_audit, AuditLogEntry, asset_row, input_image_row, ◌>>=◌,
  ◌>>◌,
}

pub record InputImageValidationContext : Type 0 where
  pub image_id : Uuid
  pub storage_key : String
  pub width : ℕ
  pub height : ℕ

unfoldable pub start_input_image_validation : Uuid → Uuid → Instant → Tx InputImageValidationContext
unfolding start_validating
start_input_image_validation tenant image_id now = do
  image ←
      found (λ db. get tenant image_id db.product_input_images) (not_found "Input image not found.")
  asset ← found (λ db. get tenant image.asset_id db.assets) (not_found "Source asset not found.")
  image' ← lift (start_validating now image)
  modify (λ db. record db { product_input_images = save image' db.product_input_images })
  pure (record {
    image_id = image'.id;
    storage_key = asset.storage_key;
    width = asset.width;
    height = asset.height;
  })

-- `reason or "Validation failed."`.
abbrev pub reason_or_default : Option String → String
reason_or_default none = "Validation failed."
reason_or_default (some reason) = if str_eq reason "" then "Validation failed." else reason

-- `if passed`.
unfoldable pub judged_image :
    Bool → Option String → Instant → ProductInputImage → Result ProductInputImage
unfolding mark_ready mark_rejected
judged_image true reason now image = mark_ready now image
judged_image false reason now image = mark_rejected (reason_or_default reason) now image

abbrev pub text_or_null : Option String → Json
text_or_null none = null
text_or_null (some s) = text s

abbrev pub validation_entry : Uuid → ProductInputImage → ProductInputImage → Instant → AuditLogEntry
validation_entry tenant image image' now = record {
  tenant_id = tenant;
  actor_user_id = none;
  action = "product_input_image.validation_completed";
  subject_type = "product_input_image";
  subject_id = image'.id;
  before = some (entry "status" (text (value image.status)) empty);
  after = some (
      entry "status" (text (value image'.status))
        (entry "rejection_reason" (text_or_null image'.rejection_reason) empty));
  occurred_at = now;
}

unfoldable pub complete_input_image_validation :
    Uuid → Uuid → Bool → Option String → Instant → Tx ProductInputImage
unfolding judged_image
complete_input_image_validation tenant image_id passed reason now = do
  image ←
      found (λ db. get tenant image_id db.product_input_images) (not_found "Input image not found.")
  image' ← lift (judged_image passed reason now image)
  modify (λ db. record db { product_input_images = save image' db.product_input_images })
  modify (record_audit (validation_entry tenant image image' now))
  pure image'
