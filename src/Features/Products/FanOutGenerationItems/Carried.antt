-- ===== src/Features/Products/FanOutGenerationItems/Carried.antt =====
-- About the loop of a fan-out and its plan.
use softbox_ai.Prelude.{
  none, List, [], ◌∷◌, ◌++◌, append_assoc, append-nil, true, false, ◌≡◌, refl, sym, ap, subst, inl,
  inr, map, Bool-cases,
}
use softbox_ai.Errors.{Result, ok, err}
use softbox_ai.Json.{entry, empty, uuid}
use softbox_ai.Ids.{Uuid, Instant}
use softbox_ai.Entities.GenerationItem.{GenerationItem}
use softbox_ai.Entities.SpecSnapshot.{CatalogSlotRow}
use softbox_ai.UnitOfWork.{
  Db, OutboxEvent, item_row, request_row, product_row, variant_row, spec_version_row,
}
use softbox_ai.Features.Generation.CompleteCatalogImageQc.{Draws}
use softbox_ai.Features.Products.FanOutGenerationItems.Plan.{FanOut, plan_slot}
use softbox_ai.Features.Products.FanOutGenerationItems.{fan_out_slot, fan_out_slots}
use softbox_ai.Features.Products.FanOutGenerationItems.Planned.{
  and_then, plan_all, planned, plan_slot_lem,
}

-- The request of a worker's attention for an attempt.
abbrev pub event_of : (Uuid → Draws) → Uuid → Instant → GenerationItem → OutboxEvent
event_of draws t now item = record {
  id = (draws item.catalog_image_slot_id).new_event_id;
  tenant_id = t;
  event_type = "generation_item.render_requested";
  payload = entry "generation_item_id" (uuid item.id) empty;
  created_at = now;
  published_at = none;
}

abbrev events_of : FanOut → List GenerationItem → List OutboxEvent
events_of f items = map (event_of f.draws f.tenant_id f.now) items

-- The loop carries out the plan, or fails as it does.
abbrev pub Carried : FanOut → List CatalogSlotRow → Db → Result (List GenerationItem) → Type 0
Carried f slots db (err e) = fan_out_slots f slots db ≡ err e
Carried f slots db (ok items) =
    fan_out_slots f slots db
    ≡ ok (
      items,
      record db {
        generation_items = db.generation_items ++ items;
        outbox_events = db.outbox_events ++ events_of f items;
      },
    )

abbrev pub added : FanOut → GenerationItem → Db → Db
added f item db = record db {
  generation_items = db.generation_items ++ item ∷ [];
  outbox_events = db.outbox_events ++ event_of f.draws f.tenant_id f.now item ∷ [];
}

skipped :
    (f : FanOut) (slot : CatalogSlotRow) (slots : List CatalogSlotRow) (db : Db)
    (r : Result (List GenerationItem))
    → slot.is_required ≡ false
    → Carried f slots db r
    → Carried f (slot ∷ slots) db r
unfolding fan_out_slots
skipped f slot slots db (ok items) e run = rw e run
skipped f slot slots db (err x) e run = rw e run

Carried-on :
    (f : FanOut) (slot : CatalogSlotRow) (slots : List CatalogSlotRow) (db : Db)
    (ri : Result GenerationItem) (r : Result (List GenerationItem))
    → slot.is_required ≡ true
    → plan_slot f db.catalog_templates slot ≡ ri
    → ((item : GenerationItem) → Carried f slots (added f item db) r)
    → Carried f (slot ∷ slots) db (and_then ri r)
unfolding fan_out_slots fan_out_slot
Carried-on f slot slots db (err e) r q h ih = rw (q, h) refl
Carried-on f slot slots db (ok item) (err e) q h ih =
    rw (q, h, sym (plan_slot_lem f db.catalog_templates slot item h).0, ih item) refl
Carried-on f slot slots db (ok item) (ok items) q h ih =
    let event = event_of f.draws f.tenant_id f.now item in
    rw
      (
        q,
        h,
        sym (plan_slot_lem f db.catalog_templates slot item h).0,
        ih item,
        append_assoc db.generation_items (item ∷ []) items,
        append_assoc db.outbox_events (event ∷ []) (events_of f items),
      )
      refl

pub fan_out_slots_lem :
    (f : FanOut) (slots : List CatalogSlotRow) (db : Db)
    → Carried f slots db (plan_all f db.catalog_templates slots)
unfolding fan_out_slots
fan_out_slots_lem f [] db = rw (append-nil db.generation_items, append-nil db.outbox_events) refl
fan_out_slots_lem f (slot ∷ slots) db = elim (Bool-cases slot.is_required) [
  | inr e ↦
      subst (Carried f (slot ∷ slots) db) (sym (ap (planned f db.catalog_templates slot slots) e)) (
        skipped f slot slots db (plan_all f db.catalog_templates slots) e
          (fan_out_slots_lem f slots db))
  | inl e ↦
      subst (Carried f (slot ∷ slots) db) (sym (ap (planned f db.catalog_templates slot slots) e)) (
        Carried-on f slot slots db (plan_slot f db.catalog_templates slot)
          (plan_all f db.catalog_templates slots) e refl
          (λ item. fan_out_slots_lem f slots (added f item db)))
]
