-- ===== src/Features/Generation/CompleteCatalogImageQc/Verdicts.antt =====
-- About a passed verdict.
use softbox_ai.Prelude.{
  Option, none, some, List, [], ◌∷◌, Bool, true, false, ◌≡◌, ◌∙◌, refl, if◌then◌else◌,
}
use softbox_ai.Errors.{ok}
use softbox_ai.Ids.{Uuid, Instant}
use softbox_ai.Json.{is_false}
use softbox_ai.Table
use softbox_ai.Table.Laws.{get-save_self, key-get}
use softbox_ai.TaskQueue.Store.{complete}
use softbox_ai.Entities.GenerationItem.{GenerationItem}
use softbox_ai.Entities.GenerationRequest.{GenerationRequest}
use softbox_ai.Entities.Product.{Product}
use softbox_ai.Entities.Category.{Category, ancestor_ids}
use softbox_ai.Entities.Setting.{Setting, platform, tenant, product}
use softbox_ai.Entities.CatalogImage.{
  CatalogImage, approved, pending_approval, is_pending_qc, mark_qc_passed, approve,
}
use softbox_ai.Services.SettingsResolver.{get}
use softbox_ai.Services.SettingsResolver.Precedence.{first_value, above, resolve_lem}
use softbox_ai.Services.PromptComposition.{Texts}
use softbox_ai.UnitOfWork.{Db, item_row, request_row, image_row, product_row, category_row}
use softbox_ai.Features.Generation.CompleteCatalogImageQc.{
  QcVerdict, Draws, approval_required_key, approve_unless_required, pass_qc,
  complete_catalog_image_qc,
}

-- The settings that decide on the approval of a product's images, the most specific first.
abbrev pub approval_layers : Uuid → Product → Category → Db → List (Option Setting)
approval_layers t p c db =
    let key = approval_required_key in
    get (some t) product (some p.id) key db.settings
    ∷ above t key (ancestor_ids c) db.settings
        (get (some t) tenant none key db.settings ∷ get none platform none key db.settings ∷ [])

approve_unless_required_lem :
    (b : Bool) (image : CatalogImage) (now : Instant) (db : Db)
    → image.status ≡ pending_approval
    → (image' : CatalogImage) × (approve_unless_required b image now db ≡ ok (image', db))
      × (image'.id ≡ image.id)
      × (image'.tenant_id ≡ image.tenant_id)
      × (image'.qc_result ≡ image.qc_result)
      × (image'.status ≡ (if b then approved else pending_approval))
unfolding approve
approve_unless_required_lem true image now db h =
    let approved_now : CatalogImage = record image {
      status = approved;
      approved_by = none;
      approved_at = some now;
      updated_at = now;
    } in
    (approved_now, rw h refl, refl, refl, refl, refl)
approve_unless_required_lem false image now db h = (image, refl, refl, refl, refl, h)

abbrev pub Passed :
    (py : Texts) (draws : Draws) (t id job_id : Uuid) (verdict : QcVerdict) (now : Instant)
    (db : Db) (p : Product) (c : Category)
    → Type 0
Passed py draws t id job_id verdict now db p c =
    (image' : CatalogImage) × (db' : Db) × (complete_catalog_image_qc py draws t id job_id verdict
        now db
      ≡ ok (tt, db'))
    × (Table.get t id db'.catalog_images ≡ some image')
    × (image'.qc_result ≡ some verdict.checks)
    × (image'.status ≡ (
        if is_false (first_value (approval_layers t p c db)) then approved else pending_approval))
    × (db'.generation_items ≡ db.generation_items)

-- A passed verdict on a stored image that waits for it, whose item, request, product and category are stored,
-- is recorded with its checks; the image is then approved when the most specific setting of
-- `approval.required` is the literal false, and otherwise waits for approval; no attempt is added.
pub complete_catalog_image_qc-Passed :
    (py : Texts) (draws : Draws) (t id job_id : Uuid) (verdict : QcVerdict) (now : Instant)
    (db : Db) (image : CatalogImage) (item : GenerationItem) (request : GenerationRequest)
    (p : Product) (c : Category)
    → verdict.passed ≡ true
    → Table.get t id db.catalog_images ≡ some image
    → is_pending_qc image.status ≡ true
    → Table.get t image.generation_item_id db.generation_items ≡ some item
    → Table.get t item.request_id db.generation_requests ≡ some request
    → Table.get t request.product_id db.products ≡ some p
    → Table.get t p.category_id db.categories ≡ some c
    → Passed py draws t id job_id verdict now db p c
unfolding complete_catalog_image_qc pass_qc mark_qc_passed
complete_catalog_image_qc-Passed py draws t id job_id verdict now db image item request p c h0 h1 h2
      h3 h4 h5 h6 =
    let v = first_value (approval_layers t p c db) in
    let image1 : CatalogImage = record image {
      status = pending_approval;
      qc_result = some verdict.checks;
      updated_at = now;
    } in
    let (image', run, same_id, same_tenant, checks, status) =
      approve_unless_required_lem (is_false v) image1 now db refl in
    let (key, mine) = key-get t id db.catalog_images image h1 in
    (
      image',
      record db {
        catalog_images = Table.save image' db.catalog_images;
        task_queue = complete t job_id now db.task_queue;
      },
      rw
          (
            h1,
            h0,
            h2,
            h3,
            h4,
            h5,
            resolve_lem t approval_required_key c p.category_id p.id db h6,
            run,
          )
          refl,
      get-save_self t id db.catalog_images image image' h1 (same_id ∙ key) (same_tenant ∙ mine),
      checks,
      status,
      refl,
    )
