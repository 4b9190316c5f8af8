-- ===== src/Features/Generation/BulkApproveCatalogImages.antt =====
-- src/app/features/generation/bulk_approve_catalog_images_for_product.py, with `list_page` of
-- src/app/infrastructure/persistence/catalog_image_repository.py as it is called there: the first
-- page of one status and product.
use softbox_ai.Prelude.{
  ℕ, ◌+◌, some, List, [], ◌∷◌, Bool, ◌&&◌, ◌==◌, leb, any, is_none, filter, take, sort_by, length,
}
use softbox_ai.Errors.{guard, conflict, not_found}
use softbox_ai.Ids.{Uuid, Instant}
use softbox_ai.Table.{get}
use softbox_ai.Entities.CatalogImage.{CatalogImage, approve, is_pending_approval}
use softbox_ai.Entities.ProductVariant.{ProductVariant}
use softbox_ai.UnitOfWork.{
  Tx, pure, lift, gets, found, modify, record_audit, product_row, ◌>>=◌, ◌>>◌,
}
use softbox_ai.Features.Generation.ReviewCatalogImages.{save_image, approval_entry}

abbrev pub bulk_limit : ℕ
bulk_limit = 200

-- The join: the image's variant is one of the product.
abbrev pub has_variant : Uuid → Uuid → List ProductVariant → CatalogImage → Bool
has_variant tenant product variants i =
    any (λ v. v.id == i.variant_id && v.tenant_id == tenant && v.product_id == product) variants

abbrev pub wants_approval : Uuid → Uuid → List ProductVariant → CatalogImage → Bool
wants_approval tenant product variants i =
    i.tenant_id == tenant
    && is_none i.superseded_by
    && is_pending_approval i.status
    && has_variant tenant product variants i

-- `order_by(created_at, id).limit(limit)`; of two images of one instant the smaller id is first.
unfoldable pub list_page :
    Uuid → Uuid → ℕ → List ProductVariant → List CatalogImage → List CatalogImage
list_page tenant product limit variants images = take limit (
    sort_by (λ (i : CatalogImage). i.created_at)
      (sort_by (λ (i : CatalogImage). i.id)
        (filter (wants_approval tenant product variants) images)))

-- The loop.
unfoldable pub approve_all : Uuid → Uuid → Instant → List CatalogImage → Tx (Unit {0})
unfolding approve
approve_all tenant user now [] = pure tt
approve_all tenant user now (image ∷ images) = do
  image' ← lift (approve (some user) now image)
  save_image image'
  modify (record_audit (approval_entry tenant image.id user "pending_approval" image' now))
  approve_all tenant user now images

unfoldable pub bulk_approve_catalog_images : Uuid → Uuid → Uuid → Instant → Tx ℕ
unfolding list_page approve_all
bulk_approve_catalog_images tenant product_id user now = do
  product ← found (λ db. get tenant product_id db.products) (not_found "Product not found.")
  images ←
      gets
        (λ db. list_page tenant product_id (bulk_limit + 1) db.product_variants db.catalog_images)
  lift (
      guard (leb (length images) bulk_limit)
        (conflict "Too many pending images to approve in one request; approve in smaller batches."))
  approve_all tenant user now images
  pure (length images)
