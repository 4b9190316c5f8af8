-- ===== src/Features/Publishing/StartPublicationPublish/Dispatch.antt =====
-- About what a poll hands to the publisher, and what a later poll may hand out.
use softbox_ai.Prelude.{
  none, Bool-cases, inl, inr, ◌≢◌, some_inj, sym, ◌∙◌, subst, String, ◌<+>◌, ap, Option-cases, ◌≡◌,
  ◌⊎◌, true, ◌||◌, some, refl, arith,
}
use softbox_ai.Errors.{ok}
use softbox_ai.Ids.{Uuid, Instant}
use softbox_ai.Json.{uuid_at}
use softbox_ai.Table.{get, save}
use softbox_ai.Table.Laws.{key-get, get-save_self}
use softbox_ai.TaskQueue.Fail.{Retried, fail_lem}
use softbox_ai.Features.Queue.{fail_job}
use softbox_ai.Entities.Publication.{
  Publication, value, scheduled, failed, dispatching, is_scheduled, is_failed, mark_dispatching,
}
use softbox_ai.Services.TaskBackoff.{Jitter, IsJitter}
use softbox_ai.TaskQueue.Store.{TaskQueueJob, Jobs, claim, job_row}
use softbox_ai.UnitOfWork.{Db, pure, proceed, publication_row}
use softbox_ai.Features.Publishing.StartPublicationPublish.{
  dispatch, start_publication, start_claimed, start_publication_publish, job_type, claimed_by,
}
use softbox_ai.Features.Publishing.StartPublicationPublish.Claimable.{
  context_of, handed_out, start_publication_publish-Claimable, get-claim,
}

-- A poll that hands the publication out, and no poll after it that does.
abbrev Dispatched : Uuid → Instant → Jitter → Db → TaskQueueJob → Jobs → Publication → Type 0
Dispatched t now scaled db job jobs p =
    (db' : Db) × (start_publication_publish t now scaled db ≡ ok (some (context_of job p), db'))
    × (get t p.id db'.publications ≡ some (record p { status = dispatching; updated_at = now }))
    × (db'.task_queue ≡ jobs)
    × ((queue : Jobs) (later : Instant) (delay : Jitter)
        → handed_out (start_publication_publish t later delay (record db' { task_queue = queue }))
          ≢ some p.id)

-- A poll that hands nothing out: no publication is written, and the job has failed once more.
abbrev Refused : Uuid → Instant → Jitter → Db → TaskQueueJob → Type 0
Refused t now scaled db job =
    (db' : Db) × (error : String) × (job' : TaskQueueJob) × (start_publication_publish t now scaled
        db
      ≡ ok (none, db'))
    × (db'.publications ≡ db.publications)
    × (get t job.id db'.task_queue ≡ some job')
    × Retried error now job job'

-- What a poll comes to, by the publication that the job names.
abbrev pub Polled : Uuid → Instant → Jitter → Db → TaskQueueJob → Jobs → Uuid → Type 0
Polled t now scaled db job jobs id =
    ((p : Publication) × (get t id db.publications ≡ some p)
      × ((p.status ≡ scheduled) ⊎ (p.status ≡ failed))
      × Dispatched t now scaled db job jobs p)
    ⊎ (((get t id db.publications ≡ none)
          ⊎ ((p : Publication) × (get t id db.publications ≡ some p)
              × (p.status ≢ scheduled)
              × (p.status ≢ failed)))
        × Refused t now scaled db job)

refused :
    (t : Uuid) (now : Instant) (scaled : Jitter) (db : Db) (job : TaskQueueJob) (jobs : Jobs)
    (error : String)
    → IsJitter scaled
    → get t job.id jobs ≡ some job
    → start_publication_publish t now scaled db
      ≡ proceed
          (λ status. pure none)
          (fail_job t job.id error now scaled (record db { task_queue = jobs }))
    → Refused t now scaled db job
refused t now scaled db job jobs error jitter here run =
    let (job', jobs', counted, stored, retried, others) =
      fail_lem t job.id error now scaled jobs job jitter here in
    (record db { task_queue = jobs' }, error, job', run ∙ rw counted refl, refl, stored, retried)

claimable_status :
    (p : Publication)
    → (is_scheduled p.status || is_failed p.status) ≡ true
    → (p.status ≡ scheduled) ⊎ (p.status ≡ failed)
claimable_status p e = ground (arith, e)

-- A poll whose claimed job names a publication, with a retry delay of at most the backoff's ceiling, always
-- returns. If that one is stored and scheduled or
-- failed, the poll returns its own idempotency key, target and payload and stores it as dispatching; and
-- then no later poll of these rows hands it out again, whatever jobs there are. In every other case,
-- missing or of another status, it hands out nothing and writes no publication, and the job has one attempt more,
-- dead when that uses up its budget and pending again otherwise.
pub start_publication_publish_lem :
    (t : Uuid) (now : Instant) (scaled : Jitter) (db : Db) (job : TaskQueueJob) (jobs : Jobs)
    (id : Uuid)
    → IsJitter scaled
    → claim t claimed_by (some job_type) now db.task_queue ≡ (some job, jobs)
    → uuid_at "publication_id" job.payload ≡ ok id
    → Polled t now scaled db job jobs id
unfolding start_publication_publish start_claimed start_publication dispatch mark_dispatching
start_publication_publish_lem t now scaled db job jobs id jitter c u =
    let here = get-claim t claimed_by (some job_type) now db.task_queue job jobs c in
    elim (Option-cases (get t id db.publications)) [
      | inl g ↦ inr (
        inl g,
        refused t now scaled db job jobs "publication not found" jitter here (rw (c, u, g) refl),
      )
      | inr (p, g) ↦ elim (Bool-cases (is_scheduled p.status || is_failed p.status)) [
        | inl e ↦
            let key = key-get t id db.publications p g in
            let g' = subst (λ k. get t k db.publications ≡ some p) (sym key.0) g in
            let p' : Publication = record p { status = dispatching; updated_at = now } in
            let db' : Db = record db {
              task_queue = jobs;
              publications = save p' db.publications;
            } in
            let stored = get-save_self t p.id db.publications p p' g' refl key.1 in
            inl (
              p,
              g,
              claimable_status p e,
              (
                db',
                rw (c, u, g, e) refl,
                stored,
                refl,
                λ queue later delay h.
                    let (x, f, test) =
                      start_publication_publish-Claimable t later delay p.id
                        (record db' { task_queue = queue }) h in
                    ground (
                      arith,
                      ap (λ (y : Publication). is_scheduled y.status || is_failed y.status)
                            (some_inj _ _ (sym stored ∙ f))
                          ∙ test,
                    ),
              ),
            )
        | inr e ↦ inr (
          inr (p, g, (λ q. ground (arith, e, q)), (λ q. ground (arith, e, q))),
          refused t now scaled db job jobs
              ("publication is '" <+> value p.status <+> "', not claimable") jitter here
              (rw (c, u, g, e) refl),
        )
      ]
    ]
