-- ===== src/Features/Generation/CompleteCatalogImageQc/Retry.antt =====
-- About a failed verdict.
use softbox_ai.Prelude.{◌+◌, ◌≤◌, String, Option, none, some, [], ◌∷◌, ◌++◌, ◌≡◌, length}
use softbox_ai.Errors.{ok}
use softbox_ai.Ids.{Uuid, Instant}
use softbox_ai.Table
use softbox_ai.Entities.GenerationItem
use softbox_ai.Entities.GenerationItem.{GenerationItem}
use softbox_ai.Entities.CatalogTemplate.{CatalogTemplate}
use softbox_ai.Entities.CatalogImage.{CatalogImage, qc_failed, human_review}
use softbox_ai.Services.PromptComposition.{Texts}
use softbox_ai.Services.QcRetryLadder.{RetryRung}
use softbox_ai.UnitOfWork.{Db, item_row, request_row, image_row, product_row, category_row}
use softbox_ai.Features.Generation.CompleteCatalogImageQc.{
  QcVerdict, Draws, reason_or_default, complete_catalog_image_qc,
}

-- What the tables hold afterwards, by the rung of the ladder.
abbrev pub Left :
    QcVerdict → Db → GenerationItem → String → Option RetryRung → CatalogImage → Db → Type 0
Left verdict db item prompt none image' db' =
    (image'.status ≡ human_review)
    × (image'.rejection_reason ≡ some (reason_or_default verdict.reason))
    × (db'.generation_items ≡ db.generation_items)
    × (db'.outbox_events ≡ db.outbox_events)
Left verdict db item prompt (some rung) image' db' =
    (image'.status ≡ qc_failed)
    × (rung.attempt_no ≤ 3)
    × (new : GenerationItem) × (db'.generation_items ≡ db.generation_items ++ new ∷ [])
    × (new.status ≡ GenerationItem.pending)
    × (new.attempt_no ≡ rung.attempt_no)
    × (new.template_id ≡ rung.template_id)
    × (new.prompt_rendered ≡ prompt)
    × (new.input_asset_ids ≡ item.input_asset_ids)
    × (length db'.outbox_events ≡ length db.outbox_events + 1)

abbrev pub Failed :
    (py : Texts) (draws : Draws) (t id job_id : Uuid) (verdict : QcVerdict) (now : Instant)
    (db : Db) (item : GenerationItem) (o : Option RetryRung) (prompt : String)
    → Type 0
Failed py draws t id job_id verdict now db item o prompt =
    (image' : CatalogImage) × (db' : Db) × (complete_catalog_image_qc py draws t id job_id verdict
        now db
      ≡ ok (tt, db'))
    × (Table.get t id db'.catalog_images ≡ some image')
    × (image'.qc_result ≡ some verdict.checks)
    × Left verdict db item prompt o image' db'
