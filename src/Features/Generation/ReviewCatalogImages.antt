-- ===== src/Features/Generation/ReviewCatalogImages.antt =====
-- src/app/features/generation/approve_catalog_image.py and reject_catalog_image.py.
use softbox_ai.Prelude.{String, some}
use softbox_ai.Errors.{not_found}
use softbox_ai.Ids.{Uuid, Instant}
use softbox_ai.Json.{entry, empty, text}
use softbox_ai.Table.{get, save}
use softbox_ai.Entities.CatalogImage.{CatalogImage, value, approve, reject}
use softbox_ai.UnitOfWork.{
  Tx, pure, lift, found, modify, record_audit, AuditLogEntry, image_row, ◌>>=◌, ◌>>◌,
}

abbrev pub save_image : CatalogImage → Tx (Unit {0})
save_image image = modify (λ db. record db { catalog_images = save image db.catalog_images })

abbrev pub approval_entry : Uuid → Uuid → Uuid → String → CatalogImage → Instant → AuditLogEntry
approval_entry tenant id user before_status image now = record {
  tenant_id = tenant;
  actor_user_id = some user;
  action = "catalog_image.approved";
  subject_type = "catalog_image";
  subject_id = id;
  before = some (entry "status" (text before_status) empty);
  after = some (entry "status" (text (value image.status)) empty);
  occurred_at = now;
}

abbrev pub rejection_entry :
    Uuid → Uuid → Uuid → String → String → CatalogImage → Instant → AuditLogEntry
rejection_entry tenant id user reason before_status image now = record {
  tenant_id = tenant;
  actor_user_id = some user;
  action = "catalog_image.rejected";
  subject_type = "catalog_image";
  subject_id = id;
  before = some (entry "status" (text before_status) empty);
  after =
      some
        (entry "rejection_reason" (text reason) (entry "status" (text (value image.status)) empty));
  occurred_at = now;
}

unfoldable pub approve_catalog_image : Uuid → Uuid → Uuid → Instant → Tx CatalogImage
approve_catalog_image tenant id approved_by now = do
  image ← found (λ db. get tenant id db.catalog_images) (not_found "Catalog image not found.")
  image' ← lift (approve (some approved_by) now image)
  save_image image'
  modify (record_audit (approval_entry tenant id approved_by (value image.status) image' now))
  pure image'

unfoldable pub reject_catalog_image : Uuid → Uuid → String → Uuid → Instant → Tx CatalogImage
reject_catalog_image tenant id reason rejected_by now = do
  image ← found (λ db. get tenant id db.catalog_images) (not_found "Catalog image not found.")
  image' ← lift (reject reason now image)
  save_image image'
  modify
      (record_audit (rejection_entry tenant id rejected_by reason (value image.status) image' now))
  pure image'
