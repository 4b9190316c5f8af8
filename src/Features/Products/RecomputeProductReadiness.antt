-- ===== src/Features/Products/RecomputeProductReadiness.antt =====
-- src/app/features/products/recompute_product_readiness.py, with `list_for_product` of
-- src/app/infrastructure/persistence/product_input_image_repository.py.
use softbox_ai.Prelude.{none, List, Bool, true, false, ◌&&◌, ◌==◌, filter}
use softbox_ai.Errors.{Result, ok, not_found}
use softbox_ai.Ids.{Uuid, Instant}
use softbox_ai.Table.{get, save}
use softbox_ai.Entities.Product.{Product, mark_ready, mark_needs_attention, can_need_attention}
use softbox_ai.Entities.ProductInputImage.{ProductInputImage}
use softbox_ai.Services.ProductReadiness.{compute_product_readiness}
use softbox_ai.UnitOfWork.{
  Tx, pure, lift, gets, found, modify, product_row, spec_version_row, ◌>>=◌, ◌>>◌,
}

abbrev pub list_for_product : Uuid → Uuid → List ProductInputImage → List ProductInputImage
list_for_product tenant product images =
    filter (λ i. i.tenant_id == tenant && i.product_id == product) images

-- The `if` and `elif`; the second test is that of `mark_needs_attention` itself.
abbrev pub restated : Bool → Bool → Instant → Product → Result Product
restated true attention now product = mark_ready now product
restated false true now product = mark_needs_attention now product
restated false false now product = ok product

unfoldable pub recompute_product_readiness : Uuid → Uuid → Instant → Tx Product
unfolding compute_product_readiness mark_ready mark_needs_attention
recompute_product_readiness tenant id now = do
  product ← found (λ db. get tenant id db.products) (not_found "Product not found.")
  spec_version ←
      found (λ db. get tenant product.spec_version_id db.category_spec_versions)
        (not_found "Product's pinned spec version not found.")
  images ← gets (λ db. list_for_product tenant id db.product_input_images)
  let result = compute_product_readiness spec_version.snapshot product.attributes images none
  product' ← lift (restated result.is_ready (can_need_attention product.status) now product)
  modify (λ db. record db { products = save product' db.products })
  pure product'
