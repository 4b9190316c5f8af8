-- ===== src/Scenarios/Pipeline.antt =====
-- A render that is finished, its verdicts and the relay over the sample tenant.
use softbox_ai.Prelude.{ℕ, zero, suc, none, some, List, [], ◌∷◌, true, false, pos, arith, refl}
use softbox_ai.Json.{entry, empty, boolean, text}
use softbox_ai.Entities.Asset
use softbox_ai.Entities.Asset.{Asset}
use softbox_ai.Entities.Setting
use softbox_ai.Entities.Setting.{Setting}
use softbox_ai.Entities.CatalogImage
use softbox_ai.Entities.CatalogImage.{CatalogImage}
use softbox_ai.Entities.Category.{Category}
use softbox_ai.Entities.Product
use softbox_ai.Entities.Product.{Product}
use softbox_ai.Services.ImageInspection.{inspect_image}
use softbox_ai.Services.PromptComposition.{Texts, plain}
use softbox_ai.UnitOfWork.{Db, add_event}
use softbox_ai.Features.Outbox.Backlog.{Relayed, relay_outbox_events_for_tenant_lem}
use softbox_ai.Features.Generation.CompleteGenerationItemRender.{Rendered, register_asset}
use softbox_ai.Features.Generation.CompleteGenerationItemRender.OneLive.{
  Completed, complete_generation_item_render_lem,
}
use softbox_ai.Features.Generation.CompleteCatalogImageQc.{QcVerdict, Draws}
use softbox_ai.Features.Generation.CompleteCatalogImageQc.Verdicts.{
  Passed, complete_catalog_image_qc-Passed,
}
use softbox_ai.Scenarios.Data.{shop, running_item, succeeded_item, running_request}

abbrev letters : ℕ → List ℕ
letters zero = []
letters (suc n) = b'a' ∷ letters n

abbrev rendered : Rendered
rendered = record {
  decoded = some (record { format = some "PNG"; width = 1024; height = 1024 });
  sha256 = letters 64;
  size = 2048;
  storage_key = λ extension. extension;
  cost_micros = 900;
  latency_ms = 80;
  new_asset_id = 50;
  new_image_id = 301;
  new_event_id = 400;
}

abbrev stored_asset : Asset
stored_asset = record {
  id = 50;
  tenant_id = 1;
  storage_key = "png";
  sha256 = letters 64;
  mime = "image/png";
  width = 1024;
  height = 1024;
  bytes = 2048;
  kind = Asset.generated;
  source = "generation";
  parent_asset_id = none;
  meta = empty;
  uploaded_by = none;
  created_at = 9;
}

abbrev live_image : CatalogImage
live_image = record {
  id = 300;
  tenant_id = 1;
  variant_id = 61;
  catalog_image_slot_id = 30;
  asset_id = 49;
  generation_item_id = 10;
  status = CatalogImage.pending_qc;
  qc_result = none;
  is_primary = false;
  approved_by = none;
  approved_at = none;
  rejection_reason = none;
  superseded_by = none;
  created_at = 2;
  updated_at = 2;
}

abbrev gallery : Db
gallery = record shop { catalog_images = live_image ∷ [] }

-- The second render of the slot takes the place of the first.
render_example :
    Completed 1 10 100 rendered 9 gallery running_item running_request stored_asset none
unfolding inspect_image register_asset Asset.create
render_example =
    complete_generation_item_render_lem 1 10 100 rendered 9 gallery
      (record gallery { assets = stored_asset ∷ [] })
      (record { mime = "image/png"; width = 1024; height = 1024 }) "png" running_item
      running_request stored_asset none refl refl refl refl refl refl (tt, tt) (omega arith)

abbrev pub chair : Product
chair = record {
  id = 60;
  tenant_id = 1;
  category_id = 63;
  spec_version_id = 62;
  attributes = entry "colour" (text "red") empty;
  title = none;
  sku = none;
  price_amount = none;
  price_currency = none;
  status = Product.ready;
  created_by = 5;
  created_at = 1;
  updated_at = 1;
}

abbrev pub furniture : Category
furniture = record {
  id = 63;
  tenant_id = 1;
  parent_id = none;
  path = 63 ∷ [];
  depth = pos 0;
  key = "furniture";
  name = "Furniture";
  slug = "furniture";
  description = none;
  position = 0;
  is_active = true;
  current_spec_version = some 1;
  draft_spec_version = none;
  created_at = 1;
  updated_at = 1;
}

abbrev no_review : Setting
no_review = record {
  id = 500;
  tenant_id = some 1;
  scope_type = Setting.category;
  scope_id = some 63;
  key = "approval.required";
  value = boolean false;
  created_at = 1;
  updated_at = 1;
}

abbrev pub judged : Db
judged = record gallery {
  generation_items = succeeded_item ∷ [];
  products = chair ∷ [];
  categories = furniture ∷ [];
  settings = no_review ∷ [];
}

abbrev pub python : Texts
python = record { segments = λ s. plain s ∷ []; str = λ v. "" }

abbrev pub draws : Draws
draws = record { new_item_id = 11; new_event_id = 401; seed = 8 }

abbrev good : QcVerdict
good = record { passed = true; checks = entry "sharp" (boolean true) empty; reason = none }

abbrev bad : QcVerdict
bad = record {
  passed = false;
  checks = entry "sharp" (boolean false) empty;
  reason = some "blurred";
}

-- The category needs no approval.
pass_example : Passed python draws 1 300 100 good 9 judged chair furniture
pass_example =
    complete_catalog_image_qc-Passed python draws 1 300 100 good 9 judged live_image succeeded_item
      running_request chair furniture refl refl refl refl refl refl refl

-- One event that waits and one that was relayed.
abbrev outbox : Db
outbox = add_event 401 1 "generation_item.render_requested" empty 3 (record shop {
  outbox_events =
      (record {
        id = 400;
        tenant_id = 1;
        event_type = "generation_request.created";
        payload = empty;
        created_at = 2;
        published_at = some 3;
      })
      ∷ [];
})

relay_example : Relayed 1 50 9 (λ e. e) outbox
relay_example =
    relay_outbox_events_for_tenant_lem 1 50 9 (λ e. e) outbox ((omega arith, tt), (tt, tt))
