-- ===== src/Features/Products/FanOutGenerationItems/OnePerSlot.antt =====
-- About a fan-out and its plan.
use softbox_ai.Prelude.{
  String, some, List, [], ◌∷◌, ◌++◌, true, ◌≡◌, refl, map, filter, All, length,
}
use softbox_ai.Errors.{Result, ok, err}
use softbox_ai.Ids.{Uuid, Instant}
use softbox_ai.Table.{get, save}
use softbox_ai.Table.Laws.{get-save_self, key-get}
use softbox_ai.Entities.GenerationItem.{GenerationItem}
use softbox_ai.Entities.GenerationRequest
use softbox_ai.Entities.GenerationRequest.{GenerationRequest, is_queued, mark_running}
use softbox_ai.Entities.Product.{Product}
use softbox_ai.Entities.ProductVariant.{ProductVariant}
use softbox_ai.Entities.ProductInputImage.{is_ready}
use softbox_ai.Entities.SpecSnapshot.{CategorySpecVersion}
use softbox_ai.Services.PromptComposition.{Texts, merge_attributes}
use softbox_ai.UnitOfWork.{Db, item_row, request_row, product_row, variant_row, spec_version_row}
use softbox_ai.Features.Generation.CompleteCatalogImageQc.{Draws}
use softbox_ai.Features.Generation.ReconcileGenerationRequests.{required_slot_ids}
use softbox_ai.Features.Products.RecomputeProductReadiness.{list_for_product}
use softbox_ai.Features.Products.CreateGenerationRequest.{required_slot_count}
use softbox_ai.Features.Products.FanOutGenerationItems.Plan.{FanOut}
use softbox_ai.Features.Products.FanOutGenerationItems.{fan_out_entry, fan_out_generation_items}
use softbox_ai.Features.Products.FanOutGenerationItems.Planned.{
  plan_all, IsFirst, IsPlan, plan_all-IsPlan,
}
use softbox_ai.Features.Products.FanOutGenerationItems.Carried.{
  event_of, Carried, fan_out_slots_lem,
}

-- What the use case has done, or that it failed as the plan does.
abbrev pub FannedOut :
    Texts
    → (Uuid → Draws)
    → String
    → String
    → Uuid
    → Uuid
    → Instant
    → Db
    → GenerationRequest
    → CategorySpecVersion
    → Result (List GenerationItem)
    → Type 0
FannedOut py draws provider model t id now db request spec (err e) =
    fan_out_generation_items py draws provider model t id now db ≡ err e
FannedOut py draws provider model t id now db request spec (ok items) =
    (request' : GenerationRequest) × (db' : Db) × (fan_out_generation_items py draws provider model
        t id now db
      ≡ ok (items, db'))
    × (db'.generation_items ≡ db.generation_items ++ items)
    × (map (λ i. i.catalog_image_slot_id) items ≡ required_slot_ids spec.snapshot)
    × (length items ≡ required_slot_count spec.snapshot)
    × All (IsFirst request.id) items
    × (db'.outbox_events ≡ db.outbox_events ++ map (event_of draws t now) items)
    × (get t id db'.generation_requests ≡ some request')
    × (request'.status ≡ GenerationRequest.running)

-- The context of the loop.
abbrev pub context :
    Texts
    → (Uuid → Draws)
    → String
    → String
    → Uuid
    → Instant
    → Db
    → GenerationRequest
    → Product
    → ProductVariant
    → CategorySpecVersion
    → FanOut
context py draws provider model t now db request product variant spec = record {
  py = py;
  draws = draws;
  provider = provider;
  model = model;
  tenant_id = t;
  request_id = request.id;
  variant_id = variant.id;
  snapshot = spec.snapshot;
  ready_images =
      filter (λ i. is_ready i.status) (list_for_product t product.id db.product_input_images);
  attributes = merge_attributes product.attributes variant.attributes;
  axis_values = variant.axis_values;
  now = now;
}

-- A queued request whose product, variant and the spec version that the product is pinned to are stored:
-- the fan-out fails with the first failure among its required slots, in their order, if there is one.
-- Otherwise it returns one pending first attempt of the request for each required slot of that spec, in the
-- order of the slots; exactly these are appended to the attempts, and to the outbox one unpublished
-- event for each, in their order, that names its attempt; and the request is running.
pub fan_out_generation_items_lem :
    (py : Texts) (draws : Uuid → Draws) (provider model : String) (t id : Uuid) (now : Instant)
    (db : Db) (request : GenerationRequest) (product : Product) (variant : ProductVariant)
    (spec : CategorySpecVersion)
    → get t id db.generation_requests ≡ some request
    → is_queued request.status ≡ true
    → get t request.product_id db.products ≡ some product
    → get t request.variant_id db.product_variants ≡ some variant
    → get t product.spec_version_id db.category_spec_versions ≡ some spec
    → FannedOut py draws provider model t id now db request spec (
        plan_all
          (context py draws provider model t now db request product variant spec)
          db.catalog_templates
          spec.snapshot.catalog_image_slots)
unfolding fan_out_generation_items mark_running
fan_out_generation_items_lem py draws provider model t id now db request product variant spec h1 h2
      h3 h4 h5 =
    let f = context py draws provider model t now db request product variant spec in
    let slots = spec.snapshot.catalog_image_slots in
    done (plan_all f db.catalog_templates slots) (plan_all-IsPlan f db.catalog_templates slots)
      (fan_out_slots_lem f slots db)
  where
    done :
        (r : Result (List GenerationItem))
        → ((items : List GenerationItem)
            → r ≡ ok items
            → IsPlan request.id spec.snapshot.catalog_image_slots items)
        → Carried
            (context py draws provider model t now db request product variant spec)
            spec.snapshot.catalog_image_slots
            db
            r
        → FannedOut py draws provider model t id now db request spec r
    done (err e) plan run = rw (h1, h2, h3, h4, h5, run) refl
    done (ok items) plan run =
        let (p, a, m) = plan items refl in
        let request' : GenerationRequest = record request { status = GenerationRequest.running } in
        let (key, mine) = key-get t id db.generation_requests request h1 in
        (
          request',
          record db {
            generation_items = db.generation_items ++ items;
            outbox_events = db.outbox_events ++ map (event_of draws t now) items;
            generation_requests = save request' db.generation_requests;
            audit_log = db.audit_log ++ fan_out_entry t request' (length items) now ∷ [];
          },
          rw (h1, h2, h3, h4, h5, run) refl,
          refl,
          p,
          m,
          a,
          refl,
          get-save_self t id db.generation_requests request request' h1 key mine,
          refl,
        )
