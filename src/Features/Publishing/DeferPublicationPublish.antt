-- ===== src/Features/Publishing/DeferPublicationPublish.antt =====
-- src/app/features/publishing/defer_publication_publish.py
use softbox_ai.Prelude.{String}
use softbox_ai.Errors.{not_found}
use softbox_ai.Ids.{Uuid, Instant}
use softbox_ai.Table.{get, save}
use softbox_ai.Entities.Publication.{Publication, defer}
use softbox_ai.UnitOfWork.{Tx, pure, lift, found, modify, publication_row, ◌>>=◌, ◌>>◌}
use softbox_ai.Features.Queue.{complete_job}

unfoldable pub defer_publication_publish :
    Uuid → Uuid → Uuid → String → Instant → Instant → Tx Publication
unfolding defer
defer_publication_publish tenant id job_id reason due_at now = do
  p ← found (λ db. get tenant id db.publications) (not_found "Publication not found.")
  p' ← lift (defer reason due_at now p)
  modify (λ db. record db { publications = save p' db.publications })
  complete_job tenant job_id now
  pure p'
