-- ===== src/Features/Generation/CompleteGenerationItemRender.antt =====
-- src/app/features/generation/complete_generation_item_render.py, with `get_live` of
-- src/app/infrastructure/persistence/catalog_image_repository.py and `get_by_sha256` of
-- asset_repository.py there. The object storage is not a table: the key that a caller has to delete
-- stands in the result.
pub mod Replacement
pub mod OneLive
use softbox_ai.Prelude.{
  ℕ, String, Option, none, some, List, [], ◌∷◌, Bool, true, false, ◌&&◌, ◌==◌, find, is_none,
  str_eq, if◌then◌else◌,
}
use softbox_ai.Errors.{Result, ok, err, not_found, key_error}
use softbox_ai.Ids.{Uuid, Instant}
use softbox_ai.Json.{JsonDict, entry, empty, uuid}
use softbox_ai.Table.{get, save, insert}
use softbox_ai.Entities.Asset
use softbox_ai.Entities.Asset.{Asset, AssetKind, generated, same_kind, lower}
use softbox_ai.Entities.GenerationItem.{GenerationItem, mark_succeeded}
use softbox_ai.Entities.CatalogImage.{CatalogImage, create, mark_superseded}
use softbox_ai.Services.ImageInspection.{Decoded, ImageInspection, inspect_image}
use softbox_ai.UnitOfWork.{
  Tx, pure, lift, gets, found, modify, add_event, record_audit, AuditLogEntry, item_row,
  request_row, image_row, asset_row, ◌>>=◌, ◌>>◌,
}
use softbox_ai.Features.Queue.{complete_job}
use softbox_ai.Features.Generation.FailGenerationItemRender.{save_item}
use softbox_ai.Features.Generation.ReviewCatalogImages.{save_image}

-- What the call is given besides the ids: the image as Pillow decodes it, the digest and the number of
-- its bytes, the key that the storage names for an extension, and the ids that are drawn on the way.
pub record Rendered : Type 0 where
  pub decoded : Option Decoded
  pub sha256 : List ℕ
  pub size : ℕ
  pub storage_key : String → String
  pub cost_micros : ℕ
  pub latency_ms : ℕ
  pub new_asset_id : Uuid
  pub new_image_id : Uuid
  pub new_event_id : Uuid

-- `_EXTENSION_FOR_MIME[mime]`.
abbrev pub extension_for_mime : String → Result String
extension_for_mime mime =
    if str_eq mime "image/jpeg"
    then ok "jpg"
    else if str_eq mime "image/png"
    then ok "png"
    else if str_eq mime "image/webp"
    then ok "webp"
    else err (key_error mime)

abbrev pub same_codes : List ℕ → List ℕ → Bool
same_codes [] [] = true
same_codes (x ∷ xs) (y ∷ ys) = x == y && same_codes xs ys
same_codes _ _ = false

abbrev pub get_by_sha256 : Uuid → List ℕ → AssetKind → List Asset → Option Asset
get_by_sha256 tenant sha256 kind assets =
    find (λ a. a.tenant_id == tenant && same_codes a.sha256 (lower sha256) && same_kind a.kind kind)
      assets

-- The asset with these bytes, and the key of the copy that is deleted when there was one before.
unfoldable pub register_asset :
    Uuid → Rendered → ImageInspection → String → Instant → Option Asset → Tx (Asset × Option String)
unfolding Asset.create
register_asset tenant r inspection key now (some asset) = pure (asset, some key)
register_asset tenant r inspection key now none = do
  asset ← lift (
      Asset.create r.new_asset_id tenant key r.sha256 inspection.mime inspection.width
        inspection.height r.size generated "generation" now none empty none)
  modify (λ db. record db { assets = insert asset db.assets })
  pure (asset, none)

abbrev pub is_live : Uuid → Uuid → Uuid → CatalogImage → Bool
is_live tenant variant slot i =
    i.tenant_id == tenant
    && i.variant_id == variant
    && i.catalog_image_slot_id == slot
    && is_none i.superseded_by

abbrev pub get_live : Uuid → Uuid → Uuid → List CatalogImage → Option CatalogImage
get_live tenant variant slot images = find (is_live tenant variant slot) images

-- `if live is not None`.
unfoldable pub supersede : Option CatalogImage → Uuid → Instant → Tx (Unit {0})
unfolding mark_superseded
supersede none by now = pure tt
supersede (some live) by now = do live' ← lift (mark_superseded by now live); save_image live'

abbrev pub success_entry : Uuid → GenerationItem → CatalogImage → Asset → Instant → AuditLogEntry
success_entry tenant item image asset now = record {
  tenant_id = tenant;
  actor_user_id = none;
  action = "generation_item.succeeded";
  subject_type = "generation_item";
  subject_id = item.id;
  before = none;
  after = some (entry "catalog_image_id" (uuid image.id) (entry "asset_id" (uuid asset.id) empty));
  occurred_at = now;
}

-- Retire the live row of the slot, if there is one, and insert the new one.
unfoldable pub replace_live : Uuid → Uuid → Uuid → CatalogImage → Instant → Tx (Unit {0})
unfolding supersede
replace_live tenant variant slot new_image now = do
  live ← gets (λ db. get_live tenant variant slot db.catalog_images)
  supersede live new_image.id now
  modify (λ db. record db { catalog_images = insert new_image db.catalog_images })

-- Returns the item, and the key of an orphaned copy that is deleted from the storage.
unfoldable pub complete_generation_item_render :
    Uuid → Uuid → Uuid → Rendered → Instant → Tx (GenerationItem × Option String)
unfolding inspect_image register_asset mark_succeeded replace_live create
complete_generation_item_render tenant id job_id r now = do
  inspection ← lift (inspect_image r.decoded)
  extension ← lift (extension_for_mime inspection.mime)
  let key = r.storage_key extension
  item ← found (λ db. get tenant id db.generation_items) (not_found "Generation item not found.")
  request ←
      found (λ db. get tenant item.request_id db.generation_requests)
        (not_found "Generation request not found.")
  existing ← gets (λ db. get_by_sha256 tenant r.sha256 generated db.assets)
  registered ← register_asset tenant r inspection key now existing
  item' ← lift (mark_succeeded registered.0.id r.cost_micros r.latency_ms item)
  save_item item'
  let new_image =
      create r.new_image_id tenant request.variant_id item'.catalog_image_slot_id registered.0.id
        item'.id now false
  replace_live tenant request.variant_id item'.catalog_image_slot_id new_image now
  modify (
      add_event r.new_event_id tenant "catalog_image.qc_requested"
        (entry "catalog_image_id" (uuid new_image.id) empty) now)
  complete_job tenant job_id now
  modify (record_audit (success_entry tenant item' new_image registered.0 now))
  pure (item', registered.1)
