-- ===== src/Features/Products/CaptureProductInputImage.antt =====
-- src/app/features/products/capture_product_input_image.py
use softbox_ai.Prelude.{Option, none, some, Bool, ◌==◌, any}
use softbox_ai.Errors.{guard, not_found, validation_error}
use softbox_ai.Ids.{Uuid, Instant}
use softbox_ai.Json.{entry, empty, uuid}
use softbox_ai.Table.{get, insert}
use softbox_ai.Entities.Asset.{input, same_kind}
use softbox_ai.Entities.ProductVariant.{ProductVariant}
use softbox_ai.Entities.ProductInputImage.{ProductInputImage, create}
use softbox_ai.UnitOfWork.{
  Tx, pure, lift, found, modify, record_audit, AuditLogEntry, product_row, variant_row, asset_row,
  input_image_row, spec_version_row, ◌>>=◌, ◌>>◌,
}

abbrev pub is_of_product : Uuid → ProductVariant → Bool
is_of_product id v = v.product_id == id

-- A variant that is named has to be one of the product.
unfoldable pub check_variant : Uuid → Uuid → Option Uuid → Tx (Unit {0})
check_variant tenant product_id none = pure tt
check_variant tenant product_id (some id) = do
  variant ← found (λ db. get tenant id db.product_variants) (not_found "Product variant not found.")
  lift (guard (is_of_product product_id variant) (not_found "Product variant not found."))

abbrev pub capture_entry : Uuid → Uuid → Uuid → Uuid → Uuid → Instant → AuditLogEntry
capture_entry tenant user id product_id asset_id now = record {
  tenant_id = tenant;
  actor_user_id = some user;
  action = "product_input_image.captured";
  subject_type = "product_input_image";
  subject_id = id;
  before = none;
  after = some (entry "product_id" (uuid product_id) (entry "asset_id" (uuid asset_id) empty));
  occurred_at = now;
}

unfoldable pub capture_product_input_image :
    (new_id tenant_id product_id input_image_slot_id asset_id created_by : Uuid)
    (variant_id : Option Uuid) (now : Instant)
    → Tx ProductInputImage
unfolding check_variant create
capture_product_input_image new_id tenant product_id slot_id asset_id user variant_id now = do
  product ← found (λ db. get tenant product_id db.products) (not_found "Product not found.")
  check_variant tenant product_id variant_id
  asset ← found (λ db. get tenant asset_id db.assets) (not_found "Asset not found.")
  lift (guard (same_kind asset.kind input) (validation_error "Asset kind is not an input photo."))
  spec_version ←
      found (λ db. get tenant product.spec_version_id db.category_spec_versions)
        (not_found "The product's pinned spec version is missing (data inconsistency).")
  lift (
      guard (any (λ slot. slot.id == slot_id) spec_version.snapshot.input_image_slots)
        (validation_error "Input image slot is not part of this product's spec."))
  let image = create new_id tenant product_id slot_id asset_id user now variant_id
  modify (λ db. record db { product_input_images = insert image db.product_input_images })
  modify (record_audit (capture_entry tenant user image.id product_id asset_id now))
  pure image
