-- ===== src/Features/Products/CreateProductVariant.antt =====
-- src/app/features/products/create_product_variant.py
use softbox_ai.Prelude.{ℕ, String, Option, none, some, List, [], ◌∷◌, Bool, ◌<+>◌}
use softbox_ai.Errors.{Result, ok, err, not_found, validation_error}
use softbox_ai.Ids.{Uuid, Instant}
use softbox_ai.Json.{JsonDict, entry, empty, uuid, text, object}
use softbox_ai.Table.{get, insert}
use softbox_ai.Entities.ProductVariant.{ProductVariant, create}
use softbox_ai.Services.PromptComposition.{Axes}
use softbox_ai.Services.VariantAxisValidation.{validate_axis_values}
use softbox_ai.UnitOfWork.{
  Tx, pure, lift, found, modify, record_audit, AuditLogEntry, product_row, variant_row,
  spec_version_row, ◌>>=◌, ◌>>◌,
}

-- `"; ".join(problems)`.
abbrev pub join_problems : String → List String → String
join_problems problem [] = problem
join_problems problem (next ∷ rest) = problem <+> "; " <+> join_problems next rest

-- `if problems: raise`.
abbrev pub no_problems : List String → Result (Unit {0})
no_problems [] = ok tt
no_problems (problem ∷ rest) = err (validation_error (join_problems problem rest))

abbrev pub axes_dict : Axes → JsonDict
axes_dict [] = empty
axes_dict (a ∷ axes) = entry a.0 (text a.1) (axes_dict axes)

abbrev pub creation_entry : Uuid → Uuid → Uuid → Uuid → Axes → Instant → AuditLogEntry
creation_entry tenant user id product_id axis_values now = record {
  tenant_id = tenant;
  actor_user_id = some user;
  action = "product_variant.created";
  subject_type = "product_variant";
  subject_id = id;
  before = none;
  after = some (
      entry "product_id" (uuid product_id)
        (entry "axis_values" (object (axes_dict axis_values)) empty));
  occurred_at = now;
}

unfoldable pub create_product_variant :
    (new_id tenant_id product_id : Uuid) (axis_values : Axes) (created_by : Uuid)
    (sku : Option String) (attributes : Option JsonDict) (is_default : Bool) (position : ℕ)
    (now : Instant)
    → Tx ProductVariant
unfolding create validate_axis_values
create_product_variant new_id tenant product_id axis_values user sku attributes is_default position
      now =
    do
      product ← found (λ db. get tenant product_id db.products) (not_found "Product not found.")
      spec_version ←
          found (λ db. get tenant product.spec_version_id db.category_spec_versions)
            (not_found "The product's pinned spec version is missing (data inconsistency).")
      lift (no_problems (validate_axis_values spec_version.snapshot axis_values))
      let variant =
          create new_id tenant product_id axis_values user now sku attributes is_default position
      modify (λ db. record db { product_variants = insert variant db.product_variants })
      modify (record_audit (creation_entry tenant user variant.id product_id axis_values now))
      pure variant
