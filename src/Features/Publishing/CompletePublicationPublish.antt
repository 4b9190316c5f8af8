-- ===== src/Features/Publishing/CompletePublicationPublish.antt =====
-- src/app/features/publishing/complete_publication_publish.py
use softbox_ai.Prelude.{String, Option, none, some}
use softbox_ai.Errors.{not_found}
use softbox_ai.Ids.{Uuid, Instant}
use softbox_ai.Json.{entry, empty, text}
use softbox_ai.Table.{get, save}
use softbox_ai.Entities.Publication.{Publication, value, mark_published}
use softbox_ai.UnitOfWork.{
  Tx, pure, lift, found, modify, record_audit, publication_row, ◌>>=◌, ◌>>◌,
}
use softbox_ai.Features.Queue.{complete_job}

unfoldable pub complete_publication_publish :
    Uuid → Uuid → Uuid → String → Option String → Instant → Tx Publication
unfolding mark_published
complete_publication_publish tenant id job_id post link now = do
  p ← found (λ db. get tenant id db.publications) (not_found "Publication not found.")
  p' ← lift (mark_published post link now p)
  modify (λ db. record db { publications = save p' db.publications })
  complete_job tenant job_id now
  modify (
      record_audit (record {
        tenant_id = tenant;
        actor_user_id = none;
        action = "publication.published";
        subject_type = "publication";
        subject_id = p'.id;
        before = none;
        after =
            some (
              entry "status" (text (value p'.status)) (entry "external_post_id" (text post) empty));
        occurred_at = now;
      }))
  pure p'
