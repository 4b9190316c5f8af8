-- ===== src/Features/Publishing/StartPublicationPublish/Claimable.antt =====
-- About the publications that a poll may hand out, and the job that it has claimed.
use softbox_ai.Prelude.{
  Option, none, Bool-cases, inl, inr, ◌≢◌, some_inj, sym, ◌∙◌, subst, String, ap, Option-cases, ◌≡◌,
  true, ◌||◌, some, refl,
}
use softbox_ai.Errors.{Result, ok, err}
use softbox_ai.Ids.{Uuid, Instant}
use softbox_ai.Json.{uuid_at}
use softbox_ai.Table.{get}
use softbox_ai.Table.Laws.{key-get, get-save_self, get_of_In}
use softbox_ai.TaskQueue.Claim.{Claims, claim_lem}
use softbox_ai.Features.Queue.{with_jobs}
use softbox_ai.Entities.Publication.{Publication, is_scheduled, is_failed, mark_dispatching}
use softbox_ai.Services.TaskBackoff.{Jitter}
use softbox_ai.TaskQueue.Store.{TaskQueueJob, JobStatus, Jobs, claim, job_row}
use softbox_ai.UnitOfWork.{Db, pure, lift, proceed, publication_row}
use softbox_ai.Features.Publishing.StartPublicationPublish.{
  PublicationPublishContext, dispatch, start_publication, start_claimed, start_publication_publish,
  job_type, claimed_by,
}

abbrev pub context_of : TaskQueueJob → Publication → PublicationPublishContext
context_of job p = record {
  job_id = job.id;
  publication_id = p.id;
  variant_id = p.variant_id;
  channel_id = p.channel_id;
  idempotency_key = p.idempotency_key;
  payload = p.payload;
}

-- The publication that a poll hands out, if it returns one.
abbrev pub handed_out : Result (Option PublicationPublishContext × Db) → Option Uuid
handed_out (ok (some context, db)) = some context.publication_id
handed_out (ok (none, db)) = none
handed_out (err e) = none

-- A stored publication that is scheduled or failed.
abbrev pub Claimable : Uuid → Uuid → Db → Type 0
Claimable t i db =
    (p : Publication) × (get t i db.publications ≡ some p)
    × ((is_scheduled p.status || is_failed p.status) ≡ true)

none-handed_out :
    (r : Result (JobStatus × Db)) (i : Uuid) → handed_out (proceed (λ status. pure none) r) ≢ some i
none-handed_out (ok (status, db)) i h = cc
none-handed_out (err e) i h = cc

start_publication-Claimable :
    (t : Uuid) (now : Instant) (scaled : Jitter) (job : TaskQueueJob) (id i : Uuid) (db : Db)
    (o : Option Publication)
    → get t id db.publications ≡ o
    → handed_out (start_publication t now scaled job o db) ≡ some i
    → Claimable t i db
unfolding start_publication dispatch mark_dispatching
start_publication-Claimable t now scaled job id i db none g h = absurd (none-handed_out _ i h)
start_publication-Claimable t now scaled job id i db (some p) g h =
    elim (Bool-cases (is_scheduled p.status || is_failed p.status)) [
      | inl e ↦
          let same : p.id ≡ i = some_inj _ _ (rw e at h) in
          (
            p,
            subst (λ k. get t k db.publications ≡ some p)
                (sym (key-get t id db.publications p g).0 ∙ same) g,
            e,
          )
      | inr e ↦ absurd (none-handed_out _ i (rw e at h))
    ]

start_claimed-Claimable :
    (t : Uuid) (now : Instant) (scaled : Jitter) (i : Uuid) (db : Db) (o : Option TaskQueueJob)
    → handed_out (start_claimed t now scaled o db) ≡ some i
    → Claimable t i db
unfolding start_claimed
start_claimed-Claimable t now scaled i db none h = cc
start_claimed-Claimable t now scaled i db (some job) h = go (uuid_at "publication_id" job.payload) h
  where
    go :
        (r : Result Uuid)
        → handed_out (
            proceed
              (λ id db'. start_publication t now scaled job (get t id db'.publications) db')
              (lift r db))
          ≡ some i
        → Claimable t i db
    go (ok id) q =
        start_publication-Claimable t now scaled job id i db (get t id db.publications) refl q
    go (err e) q = cc

pub start_publication_publish-Claimable :
    (t : Uuid) (now : Instant) (scaled : Jitter) (i : Uuid) (db : Db)
    → handed_out (start_publication_publish t now scaled db) ≡ some i
    → Claimable t i db
unfolding start_publication_publish
start_publication_publish-Claimable t now scaled i db h =
    go (claim t claimed_by (some job_type) now db.task_queue) h
  where
    go :
        (c : Option TaskQueueJob × Jobs)
        → handed_out (proceed (start_claimed t now scaled) (with_jobs db c)) ≡ some i
        → Claimable t i db
    go (o, jobs) q = start_claimed-Claimable t now scaled i (record db { task_queue = jobs }) o q

-- The claimed job stands in the table that the claim leaves.
pub get-claim :
    (t : Uuid) (by : String) (type : Option String) (now : Instant) (before : Jobs)
    (job : TaskQueueJob) (jobs : Jobs)
    → claim t by type now before ≡ (some job, jobs)
    → get t job.id jobs ≡ some job
get-claim t by type now before job jobs c =
    let (k, made, here, can, (mine, waits, due), first, saved) =
      subst (Claims t by type now before) c (claim_lem t by type now before) in
    let same : k.id ≡ job.id = sym (ap (λ (j : TaskQueueJob). j.id) made) in
    elim (Option-cases (get t k.id before)) [
      | inl e ↦
          absurd
            (get_of_In k.id before k here refl (subst (λ u. get u k.id before ≡ none) (sym mine) e))
      | inr (x, e) ↦
          subst (λ rows. get t job.id rows ≡ some job) (sym saved)
            (get-save_self t job.id before x job (subst (λ i. get t i before ≡ some x) same e) refl
              (ap (λ (j : TaskQueueJob). j.tenant_id) made ∙ mine))
    ]
