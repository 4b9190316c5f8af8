-- ===== src/TaskQueue/Claim.antt =====
-- About `claim`: which job it hands out and what it writes.
use softbox_ai.Prelude.{
  ◌≤◌, ◌≡◌, arith, String, Option, none, some, [], true, filter, All, In, In-filter, In-min_by,
  min_by-le, min_by-none, min_by, refl,
}
use softbox_ai.Ids.{Uuid, Instant}
use softbox_ai.Table.{save}
use softbox_ai.TaskQueue.Store.{
  TaskQueueJob, pending, Jobs, claim, claimed, is_claimable, hand_out, job_row,
}

module _ (tenant : Uuid) (by : String) (type : Option String) (now : Instant) where
  -- The job that is handed out was claimable and no claimable job is due earlier; in the table its
  -- row alone is written, as the running job that is returned. With nothing handed out there was
  -- nothing to claim.
  abbrev pub Claims : Jobs → Option TaskQueueJob × Jobs → Type 0
  Claims jobs (none, jobs') = (filter (is_claimable tenant type now) jobs ≡ []) × (jobs' ≡ jobs)
  Claims jobs (some j, jobs') =
      (k : TaskQueueJob) × (j ≡ claimed by now k)
      × In k jobs
      × (is_claimable tenant type now k ≡ true)
      × ((k.tenant_id ≡ tenant) × (k.status ≡ pending) × (k.run_at ≤ now))
      × All (λ x. k.run_at ≤ x.run_at) (filter (is_claimable tenant type now) jobs)
      × (jobs' ≡ save j jobs)

  -- Whatever the table holds, a claim hands out a job that was pending, due, of the tenant and of the
  -- type asked for, none of those being due earlier; the only change to the table is that this job's
  -- row is now the running one that is handed out. It hands out nothing, and changes nothing,
  -- exactly when there is no such job.
  pub claim_lem : (jobs : Jobs) → Claims jobs (claim tenant by type now jobs)
  unfolding claim
  claim_lem jobs = go (min_by (λ j. j.run_at) (filter (is_claimable tenant type now) jobs)) refl
    where
      go :
          (o : Option TaskQueueJob)
          → min_by (λ j. j.run_at) (filter (is_claimable tenant type now) jobs) ≡ o
          → Claims jobs (hand_out by now jobs o)
      go none e = (min_by-none _ _ e, refl)
      go (some k) e =
          let p = In-filter _ k jobs (In-min_by _ _ k e) in
          (k, refl, p.0, p.1, (ground arith, ground arith, ground arith), min_by-le _ _ k e, refl)
