-- ===== src/Features/Products/FanOutGenerationItems.antt =====
-- src/app/features/products/fan_out_generation_items.py
pub mod Plan
pub mod Planned
pub mod Carried
pub mod OnePerSlot
use softbox_ai.Prelude.{
  ℕ, String, some, none, List, [], ◌∷◌, Bool, not, filter, length, if◌then◌else◌,
}
use softbox_ai.Errors.{guard, not_found, validation_error}
use softbox_ai.Ids.{Uuid, Instant}
use softbox_ai.Json.{entry, empty, uuid, integer}
use softbox_ai.Table.{get, save, insert}
use softbox_ai.Entities.GenerationItem.{GenerationItem}
use softbox_ai.Entities.GenerationRequest.{GenerationRequest, is_queued, mark_running}
use softbox_ai.Entities.ProductInputImage.{ProductInputImage, is_ready}
use softbox_ai.Entities.SpecSnapshot.{CatalogSlotRow}
use softbox_ai.Services.PromptComposition.{Texts, merge_attributes}
use softbox_ai.UnitOfWork.{
  Tx, pure, lift, gets, read, found, modify, add_event, record_audit, AuditLogEntry, item_row,
  request_row, product_row, variant_row, spec_version_row, ◌>>=◌, ◌>>◌,
}
use softbox_ai.Features.Generation.CompleteCatalogImageQc.{Draws}
use softbox_ai.Features.Products.RecomputeProductReadiness.{list_for_product}
use softbox_ai.Features.Products.FanOutGenerationItems.Plan.{FanOut, plan_slot}

-- One round of the loop.
unfoldable pub fan_out_slot : FanOut → CatalogSlotRow → Tx GenerationItem
unfolding plan_slot
fan_out_slot f slot = do
  item ← read (λ db. plan_slot f db.catalog_templates slot)
  modify (λ db. record db { generation_items = insert item db.generation_items })
  modify (
      add_event (f.draws slot.id).new_event_id f.tenant_id "generation_item.render_requested"
        (entry "generation_item_id" (uuid item.id) empty) f.now)
  pure item

unfoldable pub fan_out_slots : FanOut → List CatalogSlotRow → Tx (List GenerationItem)
unfolding fan_out_slot
fan_out_slots f [] = pure []
fan_out_slots f (slot ∷ slots) =
    let rest = fan_out_slots f slots in
    let with_item = fan_out_slot f slot >>= λ item. rest >>= λ items. pure (item ∷ items) in
    if slot.is_required then with_item else rest

abbrev pub fan_out_entry : Uuid → GenerationRequest → ℕ → Instant → AuditLogEntry
fan_out_entry tenant request items now = record {
  tenant_id = tenant;
  actor_user_id = some request.requested_by;
  action = "generation_request.fanned_out";
  subject_type = "generation_request";
  subject_id = request.id;
  before = none;
  after = some (entry "item_count" (integer items) empty);
  occurred_at = now;
}

unfoldable pub fan_out_generation_items :
    Texts
    → (Uuid → Draws)
    → (provider model : String) → (tenant_id request_id : Uuid) → Instant
    → Tx (List GenerationItem)
unfolding merge_attributes fan_out_slots mark_running
fan_out_generation_items py draws provider model tenant id now = do
  request ←
      found (λ db. get tenant id db.generation_requests) (not_found "Generation request not found.")
  lift (
      guard (is_queued request.status)
        (validation_error "Cannot fan out - a request is only fanned out once, from 'queued'."))
  product ← found (λ db. get tenant request.product_id db.products) (not_found "Product not found.")
  variant ←
      found (λ db. get tenant request.variant_id db.product_variants)
        (not_found "Product variant not found.")
  spec_version ←
      found (λ db. get tenant product.spec_version_id db.category_spec_versions)
        (not_found "The product's pinned spec version is missing (data inconsistency).")
  captured ← gets (λ db. list_for_product tenant product.id db.product_input_images)
  let f : FanOut = record {
    py = py;
    draws = draws;
    provider = provider;
    model = model;
    tenant_id = tenant;
    request_id = request.id;
    variant_id = variant.id;
    snapshot = spec_version.snapshot;
    ready_images = filter (λ i. is_ready i.status) captured;
    attributes = merge_attributes product.attributes variant.attributes;
    axis_values = variant.axis_values;
    now = now;
  }
  items ← fan_out_slots f spec_version.snapshot.catalog_image_slots
  request' ← lift (mark_running request)
  modify (λ db. record db { generation_requests = save request' db.generation_requests })
  modify (record_audit (fan_out_entry tenant request' (length items) now))
  pure items
