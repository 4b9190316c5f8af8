-- ===== src/Features/Publishing/ReleaseScheduledPublications/Sweep.antt =====
-- About the sweep over the publications that are due.
use softbox_ai.Prelude.{
  ℕ, ◌+◌, ◌≡◌, none, List, [], ◌∷◌, ◌++◌, true, map, length, take, filter, sort_by, All, All-take,
  All-sort_by, All-filter_passes, All-imp, append_assoc, append-nil, refl, arith, sym, ◌∙◌,
}
use softbox_ai.Errors.{Result, ok}
use softbox_ai.Ids.{Uuid, Instant}
use softbox_ai.Table.{save}
use softbox_ai.Entities.Publication.{Publication, defer_dispatch, is_scheduled}
use softbox_ai.TaskQueue.Store.{TaskQueueJob, JobStatus, Jobs, default_max_attempts, enqueue}
use softbox_ai.UnitOfWork.{Db, publication_row}
use softbox_ai.Features.Publishing.StartPublicationPublish.{job_type}
use softbox_ai.Features.Publishing.ReleaseScheduledPublications.{
  dispatch_grace, is_due, list_due_for_release, publish_payload, release_one, release_all,
  release_scheduled_publications,
}

All-due :
    (tenant : Uuid) (now : Instant) (rows : List Publication)
    → All (λ p. is_scheduled p.status ≡ true) (filter (is_due tenant now) rows)
All-due tenant now rows =
    All-imp (λ p e. ground arith) (filter (is_due tenant now) rows)
      (All-filter_passes (is_due tenant now) rows)

module _ (tenant : Uuid) (now : Instant) (new_id : Uuid → Uuid) where
  -- The publication as the sweep leaves it.
  abbrev pub deferred : Publication → Publication
  deferred p = record p { due_at = now + dispatch_grace; updated_at = now }

  -- The job that the sweep queues for it.
  abbrev pub job_for : Publication → TaskQueueJob
  job_for p = record {
    id = new_id p.id;
    tenant_id = tenant;
    job_type = job_type;
    payload = publish_payload p;
    status = JobStatus.pending;
    attempts = 0;
    max_attempts = default_max_attempts;
    run_at = now;
    claimed_at = none;
    claimed_by = none;
    last_error = none;
    created_at = now;
    updated_at = now;
  }

  abbrev pub save_all : List Publication → List Publication → List Publication
  save_all [] rows = rows
  save_all (p ∷ due) rows = save_all due (save (deferred p) rows)

  abbrev pub swept : List Publication → Db → Db
  swept due db = record db {
    publications = save_all due db.publications;
    task_queue = db.task_queue ++ map job_for due;
  }

  abbrev outcome : ℕ → Jobs → List Publication → Db → Result (ℕ × Db)
  outcome n q ps db = ok (n, record db { publications = ps; task_queue = q })

  same_sweep :
      (n m : ℕ) (q q' : Jobs) (ps : List Publication) (db : Db)
      → n ≡ m
      → q ≡ q'
      → outcome n q ps db ≡ outcome m q' ps db
  same_sweep n m q q' ps db e f = rw (e, f) refl

  release_one-returns :
      (p : Publication) (db : Db)
      → is_scheduled p.status ≡ true
      → release_one tenant now new_id p db
        ≡ ok (
          tt,
          record db {
            publications = save (deferred p) db.publications;
            task_queue = db.task_queue ++ job_for p ∷ [];
          },
        )
  unfolding release_one defer_dispatch enqueue
  release_one-returns p db s = rw s refl

  release_all-returns :
      (due : List Publication) (n : ℕ) (db : Db)
      → All (λ p. is_scheduled p.status ≡ true) due
      → release_all tenant now new_id due n db ≡ ok (n + length due, swept due db)
  unfolding release_all
  release_all-returns [] n db a =
      same_sweep n (n + 0) db.task_queue (db.task_queue ++ []) db.publications db (omega arith)
        (sym (append-nil db.task_queue))
  release_all-returns (p ∷ due) n db a =
      let db₁ : Db = record db {
        publications = save (deferred p) db.publications;
        task_queue = db.task_queue ++ job_for p ∷ [];
      } in
      rw (release_one-returns p db a.0) (
        release_all-returns due (n + 1) db₁ a.1
        ∙ same_sweep (n + 1 + length due) (n + length (p ∷ due))
            (db.task_queue ++ job_for p ∷ [] ++ map job_for due)
            (db.task_queue ++ map job_for (p ∷ due)) (save_all due db₁.publications) db
            (omega arith) (append_assoc db.task_queue (job_for p ∷ []) (map job_for due)))

  -- A sweep always returns, with the number of publications that were due: scheduled, of the tenant,
  -- with a due time reached, at most `limit` of them, earliest first. It queues one new pending job
  -- for each, in that order, moves the due time of each on by the grace period and leaves its status,
  -- and changes no other table.
  pub release_scheduled_publications_lem :
      (limit : ℕ) (db : Db)
      → release_scheduled_publications tenant limit now new_id db
        ≡ ok (
          length (list_due_for_release tenant now limit db.publications),
          swept (list_due_for_release tenant now limit db.publications) db,
        )
  unfolding release_scheduled_publications list_due_for_release
  release_scheduled_publications_lem limit db =
      let ready = filter (is_due tenant now) db.publications in
      let due = take limit (sort_by (λ p. p.due_at) ready) in
      release_all-returns due 0 db (
        All-take _ limit (sort_by (λ p. p.due_at) ready)
          (All-sort_by _ (λ p. p.due_at) ready (All-due tenant now db.publications)))
      ∙ same_sweep (0 + length due) (length due) (db.task_queue ++ map job_for due)
          (db.task_queue ++ map job_for due) (save_all due db.publications) db (omega arith) refl
