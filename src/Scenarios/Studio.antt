-- ===== src/Scenarios/Studio.antt =====
-- A product with its photo: its readiness, a request for it and the fan-out.
use softbox_ai.Prelude.{◌≡◌, ◌↔◌, none, some, [], ◌∷◌, true, All, refl}
use softbox_ai.Entities.GenerationRequest
use softbox_ai.Entities.GenerationRequest.{GenerationRequest}
use softbox_ai.Entities.CatalogTemplate
use softbox_ai.Entities.CatalogTemplate.{CatalogTemplate}
use softbox_ai.Entities.ProductInputImage
use softbox_ai.Entities.ProductInputImage.{ProductInputImage}
use softbox_ai.Entities.SpecSnapshot.{SpecSnapshot, CategorySpecVersion}
use softbox_ai.Services.ProductReadiness.{compute_product_readiness}
use softbox_ai.Services.ProductReadiness.Complete.{
  HasAttribute, HasInput, compute_product_readiness_lem,
}
use softbox_ai.UnitOfWork.{Db}
use softbox_ai.Features.Products.FanOutGenerationItems.Planned.{plan_all}
use softbox_ai.Features.Products.FanOutGenerationItems.OnePerSlot.{
  context, FannedOut, fan_out_generation_items_lem,
}
use softbox_ai.Features.Generation.ReconcileGenerationRequests.{quota_metric}
use softbox_ai.Features.Products.CreateGenerationRequest.Reserves.{
  Requested, create_generation_request_lem,
}
use softbox_ai.Scenarios.Data.{reservation, shop, running_request, spec_version, variant}
use softbox_ai.Scenarios.Pipeline.{chair, python, draws}

-- Slot 30 requires a photo for slot 35, as its reference.
abbrev chair_spec : SpecSnapshot
chair_spec = record {
  attribute_definitions =
      record { key = "colour"; semantic_role = some "colour"; is_required = true } ∷ [];
  variant_axes = [];
  input_image_slots =
      record { id = 35; key = "front"; label = "Front"; description = none; is_required = true }
      ∷ [];
  catalog_image_slots =
      (record {
        id = 30;
        key = "hero";
        is_required = true;
        input_requirements =
            record {
              input_image_slot_id = 35;
              role = "product";
              prompt_position = 0;
              is_required = true;
            }
            ∷ [];
      })
      ∷ [];
}

abbrev photo : ProductInputImage
photo = record {
  id = 36;
  tenant_id = 1;
  product_id = 60;
  variant_id = none;
  input_image_slot_id = 35;
  asset_id = 45;
  normalised_asset_id = none;
  status = ProductInputImage.ready;
  rejection_reason = none;
  created_by = 5;
  created_at = 1;
  updated_at = 1;
}

readiness_example :
    ((compute_product_readiness chair_spec chair.attributes (photo ∷ []) none).is_ready ≡ true) ↔ (
      All (HasAttribute chair.attributes) chair_spec.attribute_definitions
      × All (HasInput (photo ∷ []) none) chair_spec.input_image_slots)
readiness_example = compute_product_readiness_lem chair_spec chair.attributes (photo ∷ []) none

abbrev queued_request : GenerationRequest
queued_request = record running_request { status = GenerationRequest.queued }

abbrev chair_version : CategorySpecVersion
chair_version = record spec_version { snapshot = chair_spec }

abbrev scene : CatalogTemplate
scene = record {
  id = 40;
  tenant_id = 1;
  catalog_image_slot_id = 30;
  name = "Studio";
  version = 1;
  is_default = true;
  position = 0;
  kind = CatalogTemplate.authored_scene;
  source_asset_id = none;
  status = CatalogTemplate.analysed;
  analysis = none;
  prompt_template = some "a chair in a studio";
  prompt_version = some 1;
  analysis_model = none;
  analysed_at = some 1;
  analysis_error = none;
  created_by = 5;
  created_at = 1;
  updated_at = 1;
}

abbrev studio : Db
studio = record shop {
  generation_requests = queued_request ∷ [];
  generation_items = [];
  category_spec_versions = chair_version ∷ [];
  products = chair ∷ [];
  product_input_images = photo ∷ [];
  catalog_templates = scene ∷ [];
}

fan_out_example :
    FannedOut python
      (λ slot. draws)
      "fake"
      "m"
      1
      20
      9
      studio
      queued_request
      chair_version
      (plan_all
        (context python
          (λ slot. draws)
          "fake"
          "m"
          1
          9
          studio
          queued_request
          chair
          variant
          chair_version)
        studio.catalog_templates
        chair_spec.catalog_image_slots)
fan_out_example =
    fan_out_generation_items_lem python (λ slot. draws) "fake" "m" 1 20 9 studio queued_request
      chair variant chair_version refl refl refl refl refl

abbrev needs_back : CategorySpecVersion
needs_back = record chair_version { snapshot = spec_version.snapshot }

abbrev desk : Db
desk = record studio { category_spec_versions = needs_back ∷ [] }

request_example :
    Requested 21 401 1 60 61 5
      (λ now. "2026-01")
      9
      desk
      (record { tenant_id = 1; period = "2026-01"; metric = quota_metric })
      2
      reservation
unfolding softbox_ai.Quota.Reservations.get
request_example =
    create_generation_request_lem 21 401 1 60 61 5 (λ now. "2026-01") 9 desk chair variant
      needs_back reservation refl refl refl refl refl refl refl
