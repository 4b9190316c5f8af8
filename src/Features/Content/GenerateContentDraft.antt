-- ===== src/Features/Content/GenerateContentDraft.antt =====
-- src/app/features/content/generate_content_draft.py
use softbox_ai.Prelude.{String, Bool, true, false, ◌&&◌, ◌==◌, any, is_none}
use softbox_ai.Errors.{guard, not_found, validation_error}
use softbox_ai.Ids.{Uuid, Instant}
use softbox_ai.Json.{entry, empty, text, uuid}
use softbox_ai.Table.{get}
use softbox_ai.Entities.CatalogImage.{CatalogImage, CatalogImageStatus, approved}
use softbox_ai.UnitOfWork.{Tx, lift, gets, found, modify, add_event, variant_row, ◌>>=◌, ◌>>◌}

abbrev pub is_approved : CatalogImageStatus → Bool
is_approved approved = true
is_approved _ = false

-- A live, approved image of the variant.
abbrev pub shows : Uuid → Uuid → CatalogImage → Bool
shows tenant variant i =
    i.tenant_id == tenant
    && i.variant_id == variant
    && is_none i.superseded_by
    && is_approved i.status

unfoldable pub generate_content_draft :
    String → Uuid → Uuid → Uuid → String → String → Instant → Tx (Unit {0})
generate_content_draft model new_event_id tenant variant_id channel locale now = do
  variant ←
      found (λ db. get tenant variant_id db.product_variants)
        (not_found "Product variant not found.")
  has_approved_image ← gets (λ db. any (shows tenant variant_id) db.catalog_images)
  lift (
      guard has_approved_image
        (validation_error "Cannot generate copy for a variant with no approved catalog images."))
  modify (
      add_event new_event_id tenant "content_draft.generate_requested"
        (entry "variant_id" (uuid variant_id) (
          entry "channel" (text channel)
            (entry "locale" (text locale) (entry "model" (text model) empty))))
        now)
