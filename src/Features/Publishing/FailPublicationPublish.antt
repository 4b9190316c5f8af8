-- ===== src/Features/Publishing/FailPublicationPublish.antt =====
-- src/app/features/publishing/fail_publication_publish.py
pub mod Agreement
use softbox_ai.Prelude.{String, Option, none, some}
use softbox_ai.Errors.{not_found}
use softbox_ai.Ids.{Uuid, Instant}
use softbox_ai.Json.{JsonDict, entry, empty, text, integer}
use softbox_ai.Table.{get, save}
use softbox_ai.Entities.Publication.{Publication, value, record_attempt_failure}
use softbox_ai.Services.TaskBackoff.{Jitter}
use softbox_ai.TaskQueue.Store.{is_dead}
use softbox_ai.UnitOfWork.{
  Db, Tx, pure, lift, found, modify, record_audit, AuditLogEntry, publication_row, ◌>>=◌, ◌>>◌,
}
use softbox_ai.Features.Queue.{fail_job}

abbrev pub failure_entry : Uuid → Publication → Instant → AuditLogEntry
failure_entry tenant p now = record {
  tenant_id = tenant;
  actor_user_id = none;
  action = "publication.attempt_failed";
  subject_type = "publication";
  subject_id = p.id;
  before = none;
  after =
      some (entry "status" (text (value p.status)) (entry "attempts" (integer p.attempts) empty));
  occurred_at = now;
}

unfoldable pub fail_publication_publish :
    Uuid → Uuid → Uuid → String → Instant → Jitter → Tx Publication
fail_publication_publish tenant id job_id error now scaled = do
  p ← found (λ db. get tenant id db.publications) (not_found "Publication not found.")
  new_job_status ← fail_job tenant job_id error now scaled
  p' ← lift (record_attempt_failure error (is_dead new_job_status) now p)
  modify (λ db. record db { publications = save p' db.publications })
  modify (record_audit (failure_entry tenant p' now))
  pure p'
