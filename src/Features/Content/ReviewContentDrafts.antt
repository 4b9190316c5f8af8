-- ===== src/Features/Content/ReviewContentDrafts.antt =====
-- src/app/features/content/approve_content_draft.py and reject_content_draft.py.
use softbox_ai.Prelude.{String, some}
use softbox_ai.Errors.{not_found}
use softbox_ai.Ids.{Uuid, Instant}
use softbox_ai.Json.{JsonDict, entry, empty, text}
use softbox_ai.Table.{get}
use softbox_ai.Entities.ContentDraft.{ContentDraft, value, approve, reject}
use softbox_ai.UnitOfWork.{
  Tx, pure, lift, found, modify, record_audit, AuditLogEntry, draft_row, ◌>>=◌, ◌>>◌,
}
use softbox_ai.Features.Content.Gate.{save_draft}

abbrev pub review_entry : String → Uuid → Uuid → Uuid → String → JsonDict → Instant → AuditLogEntry
review_entry action tenant id user before_status outcome now = record {
  tenant_id = tenant;
  actor_user_id = some user;
  action = action;
  subject_type = "content_draft";
  subject_id = id;
  before = some (entry "status" (text before_status) empty);
  after = some outcome;
  occurred_at = now;
}

unfoldable pub approve_content_draft : Uuid → Uuid → Uuid → Instant → Tx ContentDraft
unfolding approve
approve_content_draft tenant id user now = do
  draft ← found (λ db. get tenant id db.content_drafts) (not_found "Content draft not found.")
  draft' ← lift (approve (some user) now draft)
  save_draft draft'
  modify (
      record_audit (
        review_entry "content_draft.approved" tenant id user (value draft.status)
          (entry "status" (text (value draft'.status)) empty) now))
  pure draft'

unfoldable pub reject_content_draft : Uuid → Uuid → String → Uuid → Instant → Tx ContentDraft
unfolding reject
reject_content_draft tenant id reason user now = do
  draft ← found (λ db. get tenant id db.content_drafts) (not_found "Content draft not found.")
  draft' ← lift (reject reason now draft)
  save_draft draft'
  modify (
      record_audit (
        review_entry "content_draft.rejected" tenant id user (value draft.status)
          (entry "status" (text (value draft'.status))
            (entry "rejection_reason" (text reason) empty))
          now))
  pure draft'
