-- ===== src/Features/Generation/CompleteGenerationItemRender/OneLive.antt =====
-- About the live images of a slot and a finished render.
use softbox_ai.Prelude.{
  ◌≤◌, String, Option, none, some, List, [], ◌∷◌, ◌++◌, true, false, ◌≡◌, ◌∙◌, refl, sym, ap, count,
  if◌then◌else◌, arith,
}
use softbox_ai.Errors.{Result, ok, err, ok_inj}
use softbox_ai.Ids.{Uuid, Instant}
use softbox_ai.Table.{get, save, insert}
use softbox_ai.Table.Laws.{Distinct, get-save_self, key-get}
use softbox_ai.Entities.Asset
use softbox_ai.Entities.Asset.{Asset, generated}
use softbox_ai.Entities.GenerationItem.{GenerationItem, is_running, succeeded, mark_succeeded}
use softbox_ai.Entities.GenerationRequest.{GenerationRequest}
use softbox_ai.Entities.CatalogImage.{CatalogImage, create}
use softbox_ai.Services.ImageInspection.{ImageInspection, inspect_image}
use softbox_ai.Json.{entry, empty, uuid}
use softbox_ai.TaskQueue.Store.{complete}
use softbox_ai.UnitOfWork.{
  Db, add_event, pure, lift, modify, ◌>>=◌, ◌>>◌, image_row, item_row, request_row, asset_row,
}
use softbox_ai.Features.Generation.CompleteGenerationItemRender.{
  Rendered, extension_for_mime, get_by_sha256, register_asset, is_live, get_live, success_entry,
  complete_generation_item_render,
}
use softbox_ai.Features.Generation.CompleteGenerationItemRender.Replacement.{
  replaced, replace_live_lem, is_slot, count-replaced, get_live-replaced,
}

-- What the step on the assets leaves of the tables.
register_asset_frame :
    (t : Uuid) (r : Rendered) (inspection : ImageInspection) (key : String) (now : Instant)
    (o : Option Asset) (db db' : Db) (done : Asset × Option String)
    → register_asset t r inspection key now o db ≡ ok (done, db')
    → (assets : List Asset) × (db' ≡ record db { assets = assets })
unfolding register_asset
register_asset_frame t r i key now (some asset) db db' done h =
    (db.assets, ap (λ (x : (Asset × Option String) × Db). x.1) (sym (ok_inj _ _ h)))
register_asset_frame t r i key now none db db' done h =
    go
      (Asset.create r.new_asset_id t key r.sha256 i.mime i.width i.height r.size generated
        "generation" now none empty none)
      h
  where
    go :
        (made : Result Asset)
        → ((lift made >>= λ asset.
              modify (λ db. record db { assets = insert asset db.assets }) >> pure (asset, none))
            db)
          ≡ ok (done, db')
        → (assets : List Asset) × (db' ≡ record db { assets = assets })
    go (ok asset) p = (
      insert asset db.assets,
      ap (λ (x : (Asset × Option String) × Db). x.1) (sym (ok_inj _ _ p)),
    )
    go (err e) p = cc

abbrev with_asset : Asset → Option String → Db → Result ((Asset × Option String) × Db)
with_asset asset orphan db = ok ((asset, orphan), db)

abbrev pub Completed :
    (t id job_id : Uuid) (r : Rendered) (now : Instant) (db : Db) (item : GenerationItem)
    (request : GenerationRequest) (asset : Asset) (orphan : Option String)
    → Type 0
Completed t id job_id r now db item request asset orphan =
    (item' : GenerationItem) × (new : CatalogImage) × (db' : Db) × (complete_generation_item_render
        t id job_id r now db
      ≡ ok ((item', orphan), db'))
    × (get t id db'.generation_items ≡ some item')
    × (item'.output_asset_id ≡ some asset.id)
    × (new.asset_id ≡ asset.id)
    × (get_live t request.variant_id item.catalog_image_slot_id db'.catalog_images ≡ some new)
    × ((t' v s : Uuid)
        → count (is_live t' v s) db'.catalog_images
          ≡ (if is_slot t' v s new then 1 else count (is_live t' v s) db.catalog_images))

-- A render of a running item of a stored request whose bytes are an image and whose asset is registered
-- is completed: the item is stored with its asset, as is its new image, which is the live one
-- of its slot; when no slot of the request had two live images, the slot has exactly one live image
-- after it, and every other slot of any tenant has as many as before.
pub complete_generation_item_render_lem :
    (t id job_id : Uuid) (r : Rendered) (now : Instant) (db db1 : Db) (inspection : ImageInspection)
    (extension : String) (item : GenerationItem) (request : GenerationRequest) (asset : Asset)
    (orphan : Option String)
    → inspect_image r.decoded ≡ ok inspection
    → extension_for_mime inspection.mime ≡ ok extension
    → get t id db.generation_items ≡ some item
    → is_running item.status ≡ true
    → get t item.request_id db.generation_requests ≡ some request
    → register_asset t r inspection
        (r.storage_key extension)
        now
        (get_by_sha256 t r.sha256 generated db.assets)
        db
      ≡ ok ((asset, orphan), db1)
    → Distinct db.catalog_images
    → count (is_live t request.variant_id item.catalog_image_slot_id) db.catalog_images ≤ 1
    → Completed t id job_id r now db item request asset orphan
unfolding complete_generation_item_render create mark_succeeded
complete_generation_item_render_lem t id job_id r now db db1 inspection extension item request asset
      orphan h1 h2 h3 h4 h5 h6 h7 h8 =
    let v = request.variant_id in
    let s = item.catalog_image_slot_id in
    let images = db.catalog_images in
    let (assets, frame) =
      register_asset_frame t r inspection (r.storage_key extension) now
        (get_by_sha256 t r.sha256 generated db.assets) db db1 (asset, orphan) h6 in
    let registered = h6 ∙ ap (with_asset asset orphan) frame in
    let item' : GenerationItem = record item {
      status = succeeded;
      output_asset_id = some asset.id;
      cost_micros = some r.cost_micros;
      latency_ms = some r.latency_ms;
    } in
    let new = create r.new_image_id t v s asset.id item.id now false in
    let fresh : is_live t v s new ≡ true = ground arith in
    let (same_id, mine) = key-get t id db.generation_items item h3 in
    let db2 : Db = record db {
      assets = assets;
      generation_items = save item' db.generation_items;
    } in
    (
      item',
      new,
      record db2 {
        catalog_images = replaced (get_live t v s images) new now images;
        outbox_events =
            (add_event r.new_event_id t "catalog_image.qc_requested"
              (entry "catalog_image_id" (uuid r.new_image_id) empty) now db2).outbox_events;
        task_queue = complete t job_id now db.task_queue;
        audit_log = db.audit_log ++ success_entry t item' new asset now ∷ [];
      },
      rw (h1, h2, h3, h5, registered, h4, replace_live_lem t v s new now db2) refl,
      get-save_self t id db.generation_items item item' h3 same_id mine,
      refl,
      refl,
      get_live-replaced t v s new now fresh images h7 h8,
      count-replaced t v s new now fresh images h7 h8,
    )
