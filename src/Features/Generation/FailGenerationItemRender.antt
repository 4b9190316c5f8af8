-- ===== src/Features/Generation/FailGenerationItemRender.antt =====
-- src/app/features/generation/fail_generation_item_render.py
pub mod Agreement
use softbox_ai.Prelude.{String, Option, none, some, Bool, ◌<+>◌, if◌then◌else◌}
use softbox_ai.Errors.{not_found}
use softbox_ai.Ids.{Uuid, Instant}
use softbox_ai.Json.{entry, empty, text}
use softbox_ai.Table.{get, save}
use softbox_ai.Entities.GenerationItem.{GenerationItem, value, mark_failed, mark_dead}
use softbox_ai.Services.TaskBackoff.{Jitter}
use softbox_ai.TaskQueue.Store.{JobStatus, is_dead}
use softbox_ai.UnitOfWork.{
  Db, Tx, pure, lift, found, modify, record_audit, AuditLogEntry, item_row, ◌>>=◌, ◌>>◌,
}
use softbox_ai.Features.Queue.{fail_job}

abbrev pub failure_entry : Uuid → String → GenerationItem → Instant → AuditLogEntry
failure_entry tenant code item now = record {
  tenant_id = tenant;
  actor_user_id = none;
  action = "generation_item.failed";
  subject_type = "generation_item";
  subject_id = item.id;
  before = none;
  after = some (entry "error_code" (text code) (entry "status" (text (value item.status)) empty));
  occurred_at = now;
}

abbrev pub save_item : GenerationItem → Tx (Unit {0})
save_item item = modify (λ db. record db { generation_items = save item db.generation_items })

-- `if new_job_status == "dead"`.
unfoldable pub bury : JobStatus → GenerationItem → Tx GenerationItem
bury status item =
    if is_dead status
    then (do item' ← lift (mark_dead item); save_item item'; pure item')
    else pure item

unfoldable pub fail_generation_item_render :
    Uuid → Uuid → Uuid → String → String → Instant → Jitter → Tx GenerationItem
fail_generation_item_render tenant id job_id code detail now scaled = do
  item ← found (λ db. get tenant id db.generation_items) (not_found "Generation item not found.")
  failed ← lift (mark_failed code detail item)
  save_item failed
  new_job_status ← fail_job tenant job_id (code <+> ": " <+> detail) now scaled
  item' ← bury new_job_status failed
  modify (record_audit (failure_entry tenant code item' now))
  pure item'
