-- ===== src/Scenarios/Queue.antt =====
-- The job queue and the quota, on the rows of the sample tenant.
use softbox_ai.Prelude.{◌≡◌, ◌⊎◌, none, some, List, [], ◌∷◌, length, filter, All, arith, refl}
use softbox_ai.Errors.{ok}
use softbox_ai.Ids.{Uuid}
use softbox_ai.Table.{get}
use softbox_ai.Entities.History.{history}
use softbox_ai.Services.TaskBackoff.{IsJitter}
use softbox_ai.TaskQueue.Store.{TaskQueueJob, Jobs, job_row, claim, fail, reap_stuck, is_stuck}
use softbox_ai.TaskQueue.Claim.{Claims, claim_lem}
use softbox_ai.TaskQueue.Fail.{Retried, fail_lem}
use softbox_ai.TaskQueue.Reap.{Reaped, stuck_ids, reap_stuck_lem}
use softbox_ai.TaskQueue.Budget
use softbox_ai.TaskQueue.Budget.{IsBudgeted, history-IsBudgeted}
use softbox_ai.Quota.Reservations.{QuotaKey}
use softbox_ai.Quota.Limits
use softbox_ai.Quota.Limits.{WithinLimit, history-WithinLimit}
use softbox_ai.Scenarios.Data.{no_delay, render_job, stuck_job, reservation}

abbrev jobs : Jobs
jobs = render_job ∷ stuck_job ∷ []

claim_example : Claims 1 "worker" none 9 jobs (claim 1 "worker" none 9 jobs)
claim_example = claim_lem 1 "worker" none 9 jobs

no_delay-IsJitter : IsJitter no_delay
no_delay-IsJitter c = ground arith

fail_example :
    (j' : TaskQueueJob) × (jobs' : Jobs) × (fail 1 101 "timed out" 9 no_delay jobs
      ≡ ok (j'.status, jobs'))
    × (get 1 101 jobs' ≡ some j')
    × Retried "timed out" 9 stuck_job j'
    × ((t i : Uuid) → (i ≡ 101) ⊎ (get t i jobs' ≡ get t i jobs))
fail_example = fail_lem 1 101 "timed out" 9 no_delay jobs stuck_job no_delay-IsJitter refl

reap_example :
    (jobs' : Jobs) × (reap_stuck 1 8 9 (λ i. no_delay) jobs
      ≡ ok (length (filter (is_stuck 1 8) jobs), jobs'))
    × Reaped 1 8 9 (λ i. no_delay) (stuck_ids 1 8 9 (λ i. no_delay) jobs) jobs jobs'
reap_example = reap_stuck_lem 1 8 9 (λ i. no_delay) jobs

abbrev queue_calls : List Budget.Call
queue_calls =
    Budget.take 1 "worker" none 9
    ∷ Budget.retry 1 101 "timed out" 9 no_delay
    ∷ Budget.finish 1 100 10
    ∷ []

jobs-IsBudgeted : All IsBudgeted jobs
jobs-IsBudgeted =
    ((λ _. omega arith, λ h. ground arith), ((λ _. omega arith, λ h. ground arith), tt))

budget_example : All IsBudgeted (history Budget.call jobs queue_calls)
budget_example = history-IsBudgeted jobs queue_calls jobs-IsBudgeted

abbrev this_month : QuotaKey
this_month = record { tenant_id = 1; period = "2026-01"; metric = "generation.images" }

abbrev quota_calls : List Limits.Call
quota_calls =
    Limits.provision 71 this_month 10
    ∷ Limits.hold this_month 8
    ∷ Limits.hold this_month 1
    ∷ Limits.spend this_month 3
    ∷ Limits.free this_month 2
    ∷ []

limit_example : All WithinLimit (history Limits.call (reservation ∷ []) quota_calls)
limit_example = history-WithinLimit (reservation ∷ []) quota_calls (omega arith, tt)
