-- ===== src/Features/Publishing/StartPublicationPublish.antt =====
-- src/app/features/publishing/start_publication_publish.py. A message that names an id leaves it
-- out, since an id has no text here.
pub mod Claimable
pub mod Dispatch
use softbox_ai.Prelude.{String, Option, none, some, ◌||◌, ◌<+>◌, if◌then◌else◌}
use softbox_ai.Ids.{Uuid, Instant}
use softbox_ai.Json.{JsonDict, uuid_at}
use softbox_ai.Table.{get, save}
use softbox_ai.Entities.Publication.{Publication, value, is_scheduled, is_failed, mark_dispatching}
use softbox_ai.Services.TaskBackoff.{Jitter}
use softbox_ai.TaskQueue.Store.{TaskQueueJob}
use softbox_ai.UnitOfWork.{Tx, pure, lift, gets, modify, publication_row, ◌>>=◌, ◌>>◌}
use softbox_ai.Features.Queue.{claim_job, fail_job}

abbrev pub job_type : String
job_type = "publication.publish_requested"

abbrev pub claimed_by : String
claimed_by = "publish-channel-worker"

pub record PublicationPublishContext : Type 0 where
  pub job_id : Uuid
  pub publication_id : Uuid
  pub variant_id : Uuid
  pub channel_id : Uuid
  pub idempotency_key : Uuid
  pub payload : JsonDict

abbrev pub save_publication : Publication → Tx (Unit {0})
save_publication p = modify (λ db. record db { publications = save p db.publications })

-- The last steps, for a publication that is there and claimable.
unfoldable pub dispatch :
    Instant → TaskQueueJob → Publication → Tx (Option PublicationPublishContext)
unfolding mark_dispatching
dispatch now job p = do
  p' ← lift (mark_dispatching now p)
  save_publication p'
  pure (
      some (record {
        job_id = job.id;
        publication_id = p'.id;
        variant_id = p'.variant_id;
        channel_id = p'.channel_id;
        idempotency_key = p'.idempotency_key;
        payload = p'.payload;
      }))

unfoldable pub start_publication :
    Uuid
    → Instant
    → Jitter
    → TaskQueueJob
    → Option Publication
    → Tx (Option PublicationPublishContext)
unfolding dispatch
start_publication tenant now scaled job none = do
  status ← fail_job tenant job.id "publication not found" now scaled
  pure none
start_publication tenant now scaled job (some p) =
    if is_scheduled p.status || is_failed p.status then dispatch now job p else do
      status ←
          fail_job tenant job.id ("publication is '" <+> value p.status <+> "', not claimable") now
            scaled
      pure none

unfoldable pub start_claimed :
    Uuid → Instant → Jitter → Option TaskQueueJob → Tx (Option PublicationPublishContext)
unfolding start_publication uuid_at
start_claimed tenant now scaled none = pure none
start_claimed tenant now scaled (some job) = do
  id ← lift (uuid_at "publication_id" job.payload)
  p ← gets (λ db. get tenant id db.publications)
  start_publication tenant now scaled job p

unfoldable pub start_publication_publish :
    Uuid → Instant → Jitter → Tx (Option PublicationPublishContext)
unfolding start_claimed
start_publication_publish tenant now scaled = do
  job ← claim_job tenant claimed_by job_type now
  start_claimed tenant now scaled job
