-- ===== src/Features/Publishing/ReleaseScheduledPublications.antt =====
-- src/app/features/publishing/release_scheduled_publications.py, with `list_due_for_release` of
-- src/app/infrastructure/persistence/publication_repository.py.
pub mod Sweep
use softbox_ai.Prelude.{ℕ, ◌+◌, String, List, [], ◌∷◌, Bool, ◌&&◌, ◌==◌, leb, filter, take, sort_by}
use softbox_ai.Ids.{Uuid, Instant, seconds}
use softbox_ai.Json.{JsonDict, entry, empty, uuid}
use softbox_ai.Table.{save}
use softbox_ai.Entities.Publication.{Publication, is_scheduled, defer_dispatch}
use softbox_ai.UnitOfWork.{Db, Tx, pure, lift, gets, modify, publication_row, ◌>>=◌, ◌>>◌}
use softbox_ai.Features.Queue.{enqueue_job}
use softbox_ai.Features.Publishing.StartPublicationPublish.{job_type}

abbrev pub dispatch_grace : ℕ
dispatch_grace = seconds 600

abbrev pub is_due : Uuid → Instant → Publication → Bool
is_due tenant before p = p.tenant_id == tenant && is_scheduled p.status && leb p.due_at before

-- Rows of one `due_at` come in the order of insertion here; the database may give them in any.
unfoldable pub list_due_for_release : Uuid → Instant → ℕ → List Publication → List Publication
list_due_for_release tenant before limit rows =
    take limit (sort_by (λ p. p.due_at) (filter (is_due tenant before) rows))

abbrev pub publish_payload : Publication → JsonDict
publish_payload p = entry "publication_id" (uuid p.id) empty

-- One round of the loop. `new_id` is what `enqueue` draws for this publication's job.
unfoldable pub release_one : Uuid → Instant → (Uuid → Uuid) → Publication → Tx (Unit {0})
release_one tenant now new_id p = do
  p' ← lift (defer_dispatch (now + dispatch_grace) now p)
  modify (λ db. record db { publications = save p' db.publications })
  enqueue_job (new_id p'.id) tenant job_type (publish_payload p') now

unfoldable pub release_all : Uuid → Instant → (Uuid → Uuid) → List Publication → ℕ → Tx ℕ
unfolding release_one
release_all tenant now new_id [] released = pure released
release_all tenant now new_id (p ∷ due) released =
    release_one tenant now new_id p >>= λ _. release_all tenant now new_id due (released + 1)

unfoldable pub release_scheduled_publications : Uuid → ℕ → Instant → (Uuid → Uuid) → Tx ℕ
unfolding list_due_for_release release_all
release_scheduled_publications tenant limit now new_id = do
  due ← gets (λ db. list_due_for_release tenant now limit db.publications)
  release_all tenant now new_id due 0
