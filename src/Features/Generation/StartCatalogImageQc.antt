-- ===== src/Features/Generation/StartCatalogImageQc.antt =====
-- src/app/features/generation/start_catalog_image_qc.py. Of the slot's entry in the snapshot the keys
-- that are modelled are handed out.
use softbox_ai.Prelude.{String, Option, none, some, List, Bool, false, find, str_eq}
use softbox_ai.Errors.{not_found}
use softbox_ai.Ids.{Uuid, Instant}
use softbox_ai.Json.{Json, JsonDict, uuid_at, value_at}
use softbox_ai.Table.{get}
use softbox_ai.Entities.CatalogImage.{CatalogImage}
use softbox_ai.Entities.SpecSnapshot.{SpecSnapshot, CatalogSlotRow, AttributeRow, find_catalog_slot}
use softbox_ai.Services.TaskBackoff.{Jitter}
use softbox_ai.Services.PromptComposition.{merge_attributes}
use softbox_ai.TaskQueue.Store.{TaskQueueJob}
use softbox_ai.UnitOfWork.{
  Tx, pure, lift, gets, found, image_row, asset_row, item_row, variant_row, product_row,
  spec_version_row, ◌>>=◌,
}
use softbox_ai.Features.Queue.{claim_job, fail_job}
use softbox_ai.Features.Generation.StartGenerationItemRender.{reference_keys}

abbrev pub job_type : String
job_type = "catalog_image.qc_requested"

abbrev pub claimed_by : String
claimed_by = "catalog-image-qc-worker"

-- `slot_spec` is nothing where the source has the empty dict.
pub record CatalogImageQcContext : Type 0 where
  pub job_id : Uuid
  pub catalog_image_id : Uuid
  pub image_storage_key : String
  pub reference_storage_keys : List String
  pub slot_spec : Option CatalogSlotRow
  pub declared_colour : Option Json

abbrev pub is_colour : Option String → Bool
is_colour none = false
is_colour (some role) = str_eq role "colour"

abbrev pub colour_of : JsonDict → Option AttributeRow → Option Json
colour_of attributes none = none
colour_of attributes (some a) = value_at a.key attributes

-- The attribute with the role of the colour, in the merged attributes.
abbrev pub declared_colour_of : SpecSnapshot → JsonDict → Option Json
declared_colour_of s attributes =
    colour_of attributes (find (λ a. is_colour a.semantic_role) s.attribute_definitions)

unfoldable pub start_image :
    Uuid → Instant → Jitter → TaskQueueJob → Option CatalogImage → Tx (Option CatalogImageQcContext)
unfolding merge_attributes reference_keys
start_image tenant now scaled job none = do
  status ← fail_job tenant job.id "catalog_image not found" now scaled
  pure none
start_image tenant now scaled job (some image) = do
  asset ←
      found (λ db. get tenant image.asset_id db.assets) (not_found "Catalog image asset not found.")
  item ←
      found (λ db. get tenant image.generation_item_id db.generation_items)
        (not_found "Generation item not found.")
  keys ← reference_keys tenant item.input_asset_ids
  variant ←
      found (λ db. get tenant image.variant_id db.product_variants)
        (not_found "Product variant not found.")
  product ← found (λ db. get tenant variant.product_id db.products) (not_found "Product not found.")
  spec_version ←
      found (λ db. get tenant product.spec_version_id db.category_spec_versions)
        (not_found "The product's pinned spec version is missing (data inconsistency).")
  pure (
      some (record {
        job_id = job.id;
        catalog_image_id = image.id;
        image_storage_key = asset.storage_key;
        reference_storage_keys = keys;
        slot_spec = find_catalog_slot spec_version.snapshot image.catalog_image_slot_id;
        declared_colour =
            declared_colour_of spec_version.snapshot
              (merge_attributes product.attributes variant.attributes);
      }))

unfoldable pub start_claimed :
    Uuid → Instant → Jitter → Option TaskQueueJob → Tx (Option CatalogImageQcContext)
unfolding start_image
start_claimed tenant now scaled none = pure none
start_claimed tenant now scaled (some job) = do
  id ← lift (uuid_at "catalog_image_id" job.payload)
  image ← gets (λ db. get tenant id db.catalog_images)
  start_image tenant now scaled job image

unfoldable pub start_catalog_image_qc : Uuid → Instant → Jitter → Tx (Option CatalogImageQcContext)
unfolding start_claimed
start_catalog_image_qc tenant now scaled = do
  job ← claim_job tenant claimed_by job_type now
  start_claimed tenant now scaled job
