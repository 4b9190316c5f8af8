-- ===== src/Features/Publishing/CancelPublication.antt =====
-- src/app/features/publishing/cancel_publication.py
use softbox_ai.Prelude.{some}
use softbox_ai.Errors.{not_found}
use softbox_ai.Ids.{Uuid, Instant}
use softbox_ai.Json.{entry, empty, text}
use softbox_ai.Table.{get, save}
use softbox_ai.Entities.Publication.{Publication, value, cancel}
use softbox_ai.UnitOfWork.{
  Tx, pure, lift, found, modify, record_audit, publication_row, ◌>>=◌, ◌>>◌,
}

unfoldable pub cancel_publication : Uuid → Uuid → Uuid → Instant → Tx Publication
unfolding cancel
cancel_publication tenant id user now = do
  p ← found (λ db. get tenant id db.publications) (not_found "Publication not found.")
  p' ← lift (cancel now p)
  modify (λ db. record db { publications = save p' db.publications })
  modify (
      record_audit (record {
        tenant_id = tenant;
        actor_user_id = some user;
        action = "publication.cancelled";
        subject_type = "publication";
        subject_id = p'.id;
        before = some (entry "status" (text (value p.status)) empty);
        after = some (entry "status" (text (value p'.status)) empty);
        occurred_at = now;
      }))
  pure p'
