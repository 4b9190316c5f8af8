-- ===== src/Scenarios/UseCases.antt =====
-- The use cases over the tables of the sample tenant.
use softbox_ai.Prelude.{
  ◌+◌, ◌≤◌, ◌≡◌, ◌↔◌, String, Option, none, some, [], ◌∷◌, length, true, arith, refl,
}
use softbox_ai.Errors.{AppError, ok, err}
use softbox_ai.Ids.{Uuid, Instant}
use softbox_ai.Json.{uuid_at, entry, empty, uuid}
use softbox_ai.Table.{get, insert}
use softbox_ai.Entities.GenerationRequest
use softbox_ai.Entities.GenerationRequest.{GenerationRequest}
use softbox_ai.Entities.Publication
use softbox_ai.Entities.Publication.{Publication, scheduled, create}
use softbox_ai.Services.GenerationRequestRollup.{compute_rollup, slot_verdict, roll}
use softbox_ai.TaskQueue.Store
use softbox_ai.TaskQueue.Store.{TaskQueueJob, job_row, claim, oldest}
use softbox_ai.UnitOfWork.{Db, transact, publication_row, request_row}
use softbox_ai.Features.Publishing.CreatePublication.{create_publication, check_draft, post_payload}
use softbox_ai.Features.Publishing.CreatePublication.SingleFlight.{
  in_flight, IsPublishable, create_publication-single_flight,
}
use softbox_ai.Features.Publishing.StartPublicationPublish
use softbox_ai.Features.Publishing.StartPublicationPublish.{start_publication_publish}
use softbox_ai.Features.Publishing.StartPublicationPublish.Dispatch.{
  Polled, start_publication_publish_lem,
}
use softbox_ai.Features.Publishing.FailPublicationPublish.{fail_publication_publish}
use softbox_ai.Features.Publishing.FailPublicationPublish.Agreement
use softbox_ai.Features.Publishing.FailPublicationPublish.Agreement.{fail_publication_publish-Agree}
use softbox_ai.Features.Publishing.ReleaseScheduledPublications.{
  list_due_for_release, release_scheduled_publications,
}
use softbox_ai.Features.Publishing.ReleaseScheduledPublications.Sweep.{
  swept, release_scheduled_publications_lem,
}
use softbox_ai.Features.Generation.FailGenerationItemRender.Agreement.{
  Outcome, fail_generation_item_render-Agree,
}
use softbox_ai.Features.Generation.StartGenerationItemRender.{
  start_generation_item_render, job_type, claimed_by,
}
use softbox_ai.Features.Generation.StartGenerationItemRender.Stuck.{
  start_generation_item_render-stuck,
}
use softbox_ai.Features.Generation.ReconcileGenerationRequests.{reconcile_one, quota_key}
use softbox_ai.Quota.Reservations
use softbox_ai.Quota.Reservations.{covers}
use softbox_ai.Features.Generation.ReconcileGenerationRequests.Split.{
  rollup_of, settled_with, IsSplit, reconcile_one-IsSplit,
}
use softbox_ai.Features.Publishing.PublicationMetrics.{
  MetricsFetchContext, default_staleness, start_publication_metrics_fetch,
}
use softbox_ai.Features.Publishing.PublicationMetrics.Claim.{
  Fetches, start_publication_metrics_fetch_lem,
}
use softbox_ai.Scenarios.Data.{
  job_of, no_delay, shop, render_job, stuck_job, running_item, succeeded_item, running_request,
  spec_version, reservation, publication_of,
}

-- The sample tenant before it publishes anything.
abbrev quiet : Db
quiet = record shop { publications = [] }

abbrev posted : Publication
posted = record (publication_of scheduled) {
  content_draft_id = some 95;
  payload = post_payload "A chair." (50 ∷ []) none;
  due_at = 7;
  created_at = 7;
  updated_at = 7;
}

create_publication-returns :
    create_publication 80 81 1 61 90 (some 95) "A chair." (50 ∷ []) none none 7 quiet
    ≡ ok (posted, record quiet { publications = posted ∷ [] })
unfolding create_publication check_draft create
create_publication-returns = refl

single_flight_example :
    ((t v c : Uuid) → in_flight t v c (posted ∷ []) ≤ 1)
    × (in_flight 1 61 90 (posted ∷ []) ≡ 1)
    × ((posted ∷ []) ≡ insert posted [])
    × (posted.status ≡ scheduled)
    × IsPublishable 1 quiet (some 95)
single_flight_example =
    create_publication-single_flight 80 81 1 61 90 (some 95) "A chair." (50 ∷ []) none none 7 quiet
      (record quiet { publications = posted ∷ [] }) posted create_publication-returns
      (λ t v c. omega arith)

abbrev dispatching : Publication
dispatching = publication_of Publication.dispatching

abbrev busy : Db
busy = record shop { publications = dispatching ∷ [] }

fail_publish_example :
    (p' : Publication) × (j' : TaskQueueJob) × (db' : Db) × (fail_publication_publish 1 80 101
        "boom" 9 no_delay busy
      ≡ ok (p', db'))
    × (p'.attempts ≡ 0 + 1)
    × (get 1 80 db'.publications ≡ some p')
    × (get 1 101 db'.task_queue ≡ some j')
    × Agreement.Agree p' j'
    × ((j'.status ≡ Store.JobStatus.dead) ↔ (5 ≤ 1 + 1))
fail_publish_example =
    fail_publication_publish-Agree 1 80 101 "boom" 9 no_delay busy dispatching stuck_job refl refl
      refl

fail_render_example :
    Outcome 1 10 101 "provider" "boom" 9 no_delay shop running_item stuck_job refl refl refl
fail_render_example =
    fail_generation_item_render-Agree 1 10 101 "provider" "boom" 9 no_delay shop running_item
      stuck_job refl refl refl

sweep_example :
    release_scheduled_publications 1 50 9 (λ i. i + 1000) shop
    ≡ ok (
      length (list_due_for_release 1 9 50 shop.publications),
      swept 1 9 (λ i. i + 1000) (list_due_for_release 1 9 50 shop.publications) shop,
    )
sweep_example = release_scheduled_publications_lem 1 9 (λ i. i + 1000) 50 shop

stuck_claim : claim 1 claimed_by (some job_type) 9 shop.task_queue ≡ (
  some (Store.claimed claimed_by 9 render_job),
  Store.claimed claimed_by 9 render_job ∷ stuck_job ∷ [],
)
unfolding claim oldest
stuck_claim = refl

stuck_payload : uuid_at "generation_item_id" render_job.payload ≡ ok 10
unfolding uuid_at
stuck_payload = refl

stuck_example :
    (e : AppError) × (transact (start_generation_item_render 1 9 no_delay) shop ≡ (err e, shop))
stuck_example =
    start_generation_item_render-stuck 1 9 no_delay shop (Store.claimed claimed_by 9 render_job)
      (Store.claimed claimed_by 9 render_job ∷ stuck_job ∷ []) 10 running_item stuck_claim
      stuck_payload refl refl

-- The month of every instant of the sample.
abbrev january : Instant → String
january t = "2026-01"

-- The tables once slot 30 has its image.
abbrev delivered : Db
delivered = record shop { generation_items = succeeded_item ∷ [] }

delivered-status :
    (rollup_of 1 running_request spec_version delivered).status
    ≡ some GenerationRequest.partially_failed
unfolding compute_rollup slot_verdict roll
delivered-status = refl

delivered-covers :
    covers
      (quota_key 1 "2026-01")
      (rollup_of 1 running_request spec_version delivered).failed_slot_count
      delivered.quota_reservations
    ≡ true
unfolding compute_rollup slot_verdict roll
delivered-covers = refl

delivered-reservation :
    Reservations.get (quota_key 1 "2026-01") delivered.quota_reservations ≡ some reservation
unfolding Reservations.get
delivered-reservation = refl

reconcile_example :
    (db' : Db) × (reconcile_one 1 january 9 running_request delivered ≡ ok (1, db'))
    × (get 1 20 db'.generation_requests
        ≡ some (settled_with GenerationRequest.partially_failed 9 running_request))
    × ((rollup_of 1 running_request spec_version delivered).succeeded_slot_count
          + (rollup_of 1 running_request spec_version delivered).failed_slot_count
        ≡ 2)
    × IsSplit
        (quota_key 1 "2026-01")
        reservation
        (rollup_of 1 running_request spec_version delivered).succeeded_slot_count
        (rollup_of 1 running_request spec_version delivered).failed_slot_count
        db'.quota_reservations
reconcile_example =
    reconcile_one-IsSplit 1 january 9 running_request delivered spec_version
      GenerationRequest.partially_failed 70 reservation refl refl refl refl delivered-status
      delivered-reservation refl delivered-covers

abbrev publish_job : TaskQueueJob
publish_job =
    record (job_of 102 StartPublicationPublish.job_type (entry "publication_id" (uuid 80) empty)
      Store.JobStatus.pending) { attempts = 0 }

-- A publication that is due, with its job.
abbrev posting : Db
posting = record shop { task_queue = publish_job ∷ [] }

publish_claim :
    claim 1 StartPublicationPublish.claimed_by
      (some StartPublicationPublish.job_type)
      9
      posting.task_queue
    ≡ (
      some (Store.claimed StartPublicationPublish.claimed_by 9 publish_job),
      Store.claimed StartPublicationPublish.claimed_by 9 publish_job ∷ [],
    )
unfolding claim oldest
publish_claim = refl

publish_id : uuid_at "publication_id" publish_job.payload ≡ ok 80
unfolding uuid_at
publish_id = refl

dispatch_example :
    Polled 1 9 no_delay posting
      (Store.claimed StartPublicationPublish.claimed_by 9 publish_job)
      (Store.claimed StartPublicationPublish.claimed_by 9 publish_job ∷ [])
      80
dispatch_example =
    start_publication_publish_lem 1 9 no_delay posting
      (Store.claimed StartPublicationPublish.claimed_by 9 publish_job)
      (Store.claimed StartPublicationPublish.claimed_by 9 publish_job ∷ []) 80 (λ c. ground arith)
      publish_claim publish_id

-- A publication that was posted, with no metrics yet.
abbrev measured : Db
measured = record shop {
  publications =
      record (publication_of Publication.published) {
        external_post_id = some "p1";
        published_at = some 4;
      }
      ∷ [];
}

metrics_example :
    (c : Option MetricsFetchContext) × (db' : Db) × (start_publication_metrics_fetch 1
        default_staleness 9 measured
      ≡ ok (c, db'))
    × Fetches 1 9 measured c db'
metrics_example = start_publication_metrics_fetch_lem 1 default_staleness 9 measured
