-- ===== src/Features/Generation/CompleteCatalogImageQc.antt =====
-- src/app/features/generation/complete_catalog_image_qc.py and fail_catalog_image_qc.py, with
-- `list_for_catalog_slot` of src/app/infrastructure/persistence/catalog_template_repository.py.
pub mod RetryPrompt
pub mod Verdicts
pub mod Retry
use softbox_ai.Prelude.{
  ℕ, String, Option, none, some, List, [], ◌∷◌, Bool, true, false, ◌&&◌, ◌==◌, str_eq, filter,
  sort_by, if◌then◌else◌,
}
use softbox_ai.Errors.{not_found}
use softbox_ai.Ids.{Uuid, Instant}
use softbox_ai.Json.{JsonDict, Json, is_false, entry, empty, uuid}
use softbox_ai.Table.{get, save, insert}
use softbox_ai.Entities.GenerationItem
use softbox_ai.Entities.GenerationItem.{GenerationItem}
use softbox_ai.Entities.CatalogTemplate.{CatalogTemplate}
use softbox_ai.Entities.CatalogImage.{
  CatalogImage, approve, mark_qc_passed, mark_qc_failed, mark_human_review,
}
use softbox_ai.Services.TaskBackoff.{Jitter}
use softbox_ai.Services.QcRetryLadder.{RetryRung, next_rung}
use softbox_ai.Services.SettingsResolver.{resolve}
use softbox_ai.Services.PromptComposition.{Texts, composition_version}
use softbox_ai.TaskQueue.Store.{JobStatus}
use softbox_ai.UnitOfWork.{
  Db, Tx, pure, lift, gets, read, found, modify, add_event, item_row, request_row, image_row,
  product_row, variant_row, template_row, spec_version_row, ◌>>=◌, ◌>>◌,
}
use softbox_ai.Features.Generation.CompleteCatalogImageQc.RetryPrompt.{prompt_for}
use softbox_ai.Features.Queue.{complete_job, fail_job}
use softbox_ai.Features.Generation.ReconcileGenerationRequests.{list_for_request}
use softbox_ai.Features.Generation.ReviewCatalogImages.{save_image}

-- src/app/services/ports/quality_control.py: what the provider returned.
pub record QcVerdict : Type 0 where
  pub passed : Bool
  pub checks : JsonDict
  pub reason : Option String

-- What the retry draws.
pub record Draws : Type 0 where
  pub new_item_id : Uuid
  pub new_event_id : Uuid
  pub seed : ℕ

abbrev pub approval_required_key : String
approval_required_key = "approval.required"

abbrev pub reason_or_default : Option String → String
reason_or_default none = "QC retry ladder exhausted."
reason_or_default (some reason) = if str_eq reason "" then "QC retry ladder exhausted." else reason

-- Templates of one position in the order of the table.
abbrev pub list_for_catalog_slot : Uuid → Uuid → List CatalogTemplate → List CatalogTemplate
list_for_catalog_slot tenant slot templates =
    sort_by (λ (t : CatalogTemplate). t.position)
      (filter (λ t. t.tenant_id == tenant && t.catalog_image_slot_id == slot) templates)

-- `_retry`.
unfoldable pub retry : Texts → Draws → Uuid → GenerationItem → RetryRung → Instant → Tx (Unit {0})
unfolding prompt_for GenerationItem.create
retry py draws tenant item rung now = do
  prompt_rendered ← read (prompt_for py tenant item rung)
  let new_item =
      GenerationItem.create draws.new_item_id tenant item.request_id item.catalog_image_slot_id
        rung.template_id rung.attempt_no item.provider item.model item.model_params draws.seed
        prompt_rendered composition_version item.input_asset_ids now
  modify (λ db. record db { generation_items = insert new_item db.generation_items })
  modify (
      add_event draws.new_event_id tenant "generation_item.render_requested"
        (entry "generation_item_id" (uuid new_item.id) empty) now)

-- `if rung is None`.
unfoldable pub retry_or_escalate :
    Texts
    → Draws
    → Uuid
    → CatalogImage
    → GenerationItem
    → Option String
    → Instant
    → Option RetryRung
    → Tx (Unit {0})
unfolding retry mark_human_review
retry_or_escalate py draws tenant image item reason now none = do
  image' ← lift (mark_human_review (reason_or_default reason) now image)
  save_image image'
retry_or_escalate py draws tenant image item reason now (some rung) =
    retry py draws tenant item rung now

-- `if approval_required is False`.
abbrev pub approve_unless_required : Bool → CatalogImage → Instant → Tx CatalogImage
approve_unless_required true image now = lift (approve none now image)
approve_unless_required false image now = pure image

-- A verdict that passed.
unfoldable pub pass_qc : Uuid → CatalogImage → QcVerdict → Instant → Tx (Unit {0})
unfolding mark_qc_passed approve resolve
pass_qc tenant image verdict now = do
  image' ← lift (mark_qc_passed verdict.checks now image)
  item ←
      found (λ db. get tenant image.generation_item_id db.generation_items)
        (not_found "Generation item not found.")
  request ←
      found (λ db. get tenant item.request_id db.generation_requests)
        (not_found "Generation request not found.")
  product ← found (λ db. get tenant request.product_id db.products) (not_found "Product not found.")
  approval_required ←
      resolve tenant approval_required_key (some product.category_id) (some product.id)
  image'' ← approve_unless_required (is_false approval_required) image' now
  save_image image''

-- A verdict that failed.
unfoldable pub fail_qc : Texts → Draws → Uuid → CatalogImage → QcVerdict → Instant → Tx (Unit {0})
unfolding mark_qc_failed next_rung retry_or_escalate
fail_qc py draws tenant image verdict now = do
  image' ← lift (mark_qc_failed verdict.checks now image)
  save_image image'
  item ←
      found (λ db. get tenant image'.generation_item_id db.generation_items)
        (not_found "Generation item not found.")
  all_items ← gets (λ db. list_for_request tenant item.request_id db.generation_items)
  let attempts_for_slot =
      filter (λ i. i.catalog_image_slot_id == item.catalog_image_slot_id) all_items
  templates ←
      gets (λ db. list_for_catalog_slot tenant item.catalog_image_slot_id db.catalog_templates)
  rung ← lift (next_rung attempts_for_slot templates)
  retry_or_escalate py draws tenant image' item verdict.reason now rung

abbrev pub record_verdict :
    Bool → Texts → Draws → Uuid → CatalogImage → QcVerdict → Instant → Tx (Unit {0})
record_verdict true py draws tenant image verdict now = pass_qc tenant image verdict now
record_verdict false py draws tenant image verdict now = fail_qc py draws tenant image verdict now

unfoldable pub complete_catalog_image_qc :
    Texts → Draws → Uuid → Uuid → Uuid → QcVerdict → Instant → Tx (Unit {0})
unfolding pass_qc fail_qc
complete_catalog_image_qc py draws tenant id job_id verdict now = do
  image ← found (λ db. get tenant id db.catalog_images) (not_found "Catalog image not found.")
  record_verdict verdict.passed py draws tenant image verdict now
  complete_job tenant job_id now

unfoldable pub fail_catalog_image_qc : Uuid → Uuid → String → Instant → Jitter → Tx JobStatus
fail_catalog_image_qc tenant job_id error now scaled = fail_job tenant job_id error now scaled
