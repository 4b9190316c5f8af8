-- ===== src/Entities/ProductVariant.antt =====
-- src/app/entities/product_variant.py: one variant of a product.
use softbox_ai.Prelude.{ℕ, String, Option, none, some, List, Bool}
use softbox_ai.Ids.{Uuid, Instant}
use softbox_ai.Json.{JsonDict, empty}
use softbox_ai.Entities.Product.{ProductStatus, draft}

pub record ProductVariant : Type 0 where
  pub id : Uuid
  pub tenant_id : Uuid
  pub product_id : Uuid
  pub sku : Option String
  pub axis_values : List (String × String)
  pub attributes : JsonDict
  pub status : ProductStatus
  pub is_default : Bool
  pub position : ℕ
  pub created_by : Uuid
  pub created_at : Instant
  pub updated_at : Instant

-- `attributes or {}`.
abbrev pub or_empty : Option JsonDict → JsonDict
or_empty none = empty
or_empty (some attributes) = attributes

unfoldable pub create :
    (new_id tenant_id product_id : Uuid) (axis_values : List (String × String)) (created_by : Uuid)
    (now : Instant) (sku : Option String) (attributes : Option JsonDict) (is_default : Bool)
    (position : ℕ)
    → ProductVariant
create new_id tenant product_id axis_values user now sku attributes is_default position = record {
  id = new_id;
  tenant_id = tenant;
  product_id = product_id;
  sku = sku;
  axis_values = axis_values;
  attributes = or_empty attributes;
  status = draft;
  is_default = is_default;
  position = position;
  created_by = user;
  created_at = now;
  updated_at = now;
}
