-- ===== src/Entities/Product.antt =====
-- src/app/entities/product.py: a tenant's product.
pub mod Lifecycle
use softbox_ai.Prelude.{ℕ, String, Option, Bool, true, false, ◌<+>◌, if◌then◌else◌}
use softbox_ai.Errors.{Result, ok, err, cannot, validation_error}
use softbox_ai.Ids.{Uuid, Instant}
use softbox_ai.Json.{JsonDict}

pub data ProductStatus : Type 0 where
  draft ready needs_attention generating review rejected approved publishing published :
      ProductStatus

pub value : ProductStatus → String
value draft = "draft"
value ready = "ready"
value needs_attention = "needs_attention"
value generating = "generating"
value review = "review"
value rejected = "rejected"
value approved = "approved"
value publishing = "publishing"
value published = "published"

pub record Product : Type 0 where
  pub id : Uuid
  pub tenant_id : Uuid
  pub category_id : Uuid
  pub spec_version_id : Uuid
  pub attributes : JsonDict
  pub title : Option String
  pub sku : Option String
  pub price_amount : Option ℕ
  pub price_currency : Option String
  pub status : ProductStatus
  pub created_by : Uuid
  pub created_at : Instant
  pub updated_at : Instant

-- `new_id` is what `new_product_id()` draws.
unfoldable pub create :
    (new_id tenant_id category_id spec_version_id : Uuid) (attributes : JsonDict)
    (created_by : Uuid) (now : Instant) (title sku : Option String) (price_amount : Option ℕ)
    (price_currency : Option String)
    → Product
create new_id tenant category spec attributes user now title sku amount currency = record {
  id = new_id;
  tenant_id = tenant;
  category_id = category;
  spec_version_id = spec;
  attributes = attributes;
  title = title;
  sku = sku;
  price_amount = amount;
  price_currency = currency;
  status = draft;
  created_by = user;
  created_at = now;
  updated_at = now;
}

-- `(DRAFT, READY, NEEDS_ATTENTION)` and `(READY, NEEDS_ATTENTION)`.
abbrev pub can_be_ready : ProductStatus → Bool
can_be_ready draft = true
can_be_ready ready = true
can_be_ready needs_attention = true
can_be_ready _ = false

abbrev pub can_need_attention : ProductStatus → Bool
can_need_attention ready = true
can_need_attention needs_attention = true
can_need_attention _ = false

unfoldable pub mark_ready : Instant → Product → Result Product
mark_ready now product =
    if can_be_ready product.status
    then ok (record product { status = ready; updated_at = now })
    else err (cannot "mark ready" (value product.status))

unfoldable pub mark_needs_attention : Instant → Product → Result Product
mark_needs_attention now product =
    if can_need_attention product.status
    then ok (record product { status = needs_attention; updated_at = now })
    else err (
        validation_error
          ("Only a ready product can need attention, not '" <+> value product.status <+> "'."))
