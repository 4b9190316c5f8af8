-- ===== src/Features/Products/CreateGenerationRequest.antt =====
-- src/app/features/products/create_generation_request.py
pub mod Reserves
use softbox_ai.Prelude.{ℕ, String, none, some, Bool, true, false, not, ◌==◌, count}
use softbox_ai.Errors.{Result, ok, err, guard, not_found, assertion_error, quota_exceeded}
use softbox_ai.Ids.{Uuid, Instant}
use softbox_ai.Json.{entry, empty, uuid, integer}
use softbox_ai.Table
use softbox_ai.Table.{insert}
use softbox_ai.Entities.SpecSnapshot.{SpecSnapshot}
use softbox_ai.Entities.GenerationRequest.{GenerationRequest, create}
use softbox_ai.Quota.Reservations.{QuotaKey, reserve, get}
use softbox_ai.UnitOfWork.{
  Db, Tx, pure, lift, found, modify, add_event, record_audit, AuditLogEntry, request_row,
  product_row, variant_row, spec_version_row, ◌>>=◌, ◌>>◌,
}
use softbox_ai.Features.Generation.ReconcileGenerationRequests.{quota_metric}

abbrev pub required_slot_count : SpecSnapshot → ℕ
required_slot_count s = count (λ slot. slot.is_required) s.catalog_image_slots

abbrev pub reserved_as : Db → Bool → Result (Unit {0} × Db)
reserved_as db true = ok (tt, db)
reserved_as db false = err (quota_exceeded "Quota exceeded.")

-- `if not reserved: raise`.
unfoldable pub reserve_quota : QuotaKey → ℕ → Tx (Unit {0})
unfolding reserve
reserve_quota k quantity db =
    reserved_as (record db { quota_reservations = (reserve k quantity db.quota_reservations).1 })
      (reserve k quantity db.quota_reservations).0

abbrev pub creation_entry : Uuid → Uuid → Uuid → Uuid → Uuid → ℕ → Instant → AuditLogEntry
creation_entry tenant user id product_id variant_id slots now = record {
  tenant_id = tenant;
  actor_user_id = some user;
  action = "generation_request.created";
  subject_type = "generation_request";
  subject_id = id;
  before = none;
  after = some (
      entry "product_id" (uuid product_id)
        (entry "variant_id" (uuid variant_id) (entry "required_slot_count" (integer slots) empty)));
  occurred_at = now;
}

-- `period_of` is `strftime("%Y-%m")`.
unfoldable pub create_generation_request :
    (new_id new_event_id tenant_id product_id variant_id requested_by : Uuid)
    (period_of : Instant → String) (now : Instant)
    → Tx GenerationRequest
unfolding reserve_quota get create
create_generation_request new_id new_event_id tenant product_id variant_id user period_of now = do
  product ← found (λ db. Table.get tenant product_id db.products) (not_found "Product not found.")
  variant ←
      found (λ db. Table.get tenant variant_id db.product_variants)
        (not_found "Product variant not found.")
  lift (guard (variant.product_id == product_id) (not_found "Product variant not found."))
  spec_version ←
      found (λ db. Table.get tenant product.spec_version_id db.category_spec_versions)
        (not_found "The product's pinned spec version is missing (data inconsistency).")
  let slots = required_slot_count spec_version.snapshot
  lift (
      guard (not (slots == 0))
        (not_found "This product's spec has no required catalog image slots to generate."))
  let k : QuotaKey = record { tenant_id = tenant; period = period_of now; metric = quota_metric }
  reserve_quota k slots
  reservation ← found (λ db. get k db.quota_reservations) (assertion_error "")
  let request =
      create new_id tenant product_id variant_id product.spec_version_id empty (some reservation.id)
        user now
  modify (λ db. record db { generation_requests = insert request db.generation_requests })
  modify (
      add_event new_event_id tenant "generation_request.created"
        (entry "generation_request_id" (uuid request.id) empty) now)
  modify (record_audit (creation_entry tenant user request.id product_id variant_id slots now))
  pure request
