-- ===== src/TaskQueue/Budget.antt =====
-- The retry budget of a job, under any sequence of calls of the queue.
use softbox_ai.Prelude.{
  ℕ, ◌≤◌, ◌<◌, ◌≡◌, ◌⊎◌, String, Option, none, some, List, [], ◌∷◌, filter, map, All, In-min_by,
  In-filter, All-In, refl, ap, ◌∙◌, subst, arith,
}
use softbox_ai.Errors.{Result, ok, ok_inj, >>=-eq_ok, ◌>>=◌}
use softbox_ai.Ids.{Uuid, Instant}
use softbox_ai.Json.{JsonDict}
use softbox_ai.Table.{get}
use softbox_ai.Table.Laws.{All-save, All-insert}
use softbox_ai.Services.TaskBackoff.{Jitter}
use softbox_ai.Entities.History.{history, history_inv}
use softbox_ai.TaskQueue.Store.{
  TaskQueueJob, Jobs, JobStatus, pending, running, dead, job_row, failed_once, fail, fail_all,
  enqueue, claim, complete, claimed, hand_out, is_claimable, oldest, finish as finished, reap_stuck,
  is_stuck, stuck_error,
}
use softbox_ai.TaskQueue.Fail.{fail-eq_ok}

-- A live job has attempts left, and a dead one has none.
abbrev pub IsBudgeted : TaskQueueJob → Type 0
IsBudgeted j =
    ((j.status ≡ pending) ⊎ (j.status ≡ running) → j.attempts < j.max_attempts)
    × (j.status ≡ dead → j.max_attempts ≤ j.attempts)

-- The calls that change the table.
pub data Call : Type 0 where
  add : Uuid → Uuid → String → JsonDict → Instant → Instant → (max : ℕ) → 0 < max → Call
  take : Uuid → String → Option String → Instant → Call
  finish : Uuid → Uuid → Instant → Call
  retry : Uuid → Uuid → String → Instant → Jitter → Call
  reap : Uuid → Instant → Instant → (Uuid → Jitter) → Call

pub call : Call → Jobs → Result Jobs
unfolding fail reap_stuck claim complete enqueue
call (add i t type payload run now max h) jobs = ok (enqueue i t type payload run now max jobs)
call (take t by type now) jobs = ok (claim t by type now jobs).1
call (finish t i now) jobs = ok (complete t i now jobs)
call (retry t i error now scaled) jobs = fail t i error now scaled jobs >>= λ done. ok done.1
call (reap t before now draws) jobs = reap_stuck t before now draws jobs >>= λ done. ok done.1

failed_once-IsBudgeted :
    (error : String) (now : Instant) (scaled : Jitter) (j : TaskQueueJob)
    → IsBudgeted (failed_once error now scaled j)
failed_once-IsBudgeted error now scaled j = (λ h. ground arith, λ h. ground arith)

fail-IsBudgeted :
    (t i : Uuid) (error : String) (now : Instant) (scaled : Jitter) (jobs : Jobs)
    (done : JobStatus × Jobs)
    → All IsBudgeted jobs
    → fail t i error now scaled jobs ≡ ok done
    → All IsBudgeted done.1
fail-IsBudgeted t i error now scaled jobs done a h =
    let (j, p, q) = fail-eq_ok t i error now scaled jobs done h in
    rw q (
      All-save IsBudgeted (failed_once error now scaled j) jobs
        (failed_once-IsBudgeted error now scaled j) a)

fail_all-IsBudgeted :
    (t : Uuid) (ids : List Uuid) (now : Instant) (draws : Uuid → Jitter) (jobs jobs' : Jobs)
    → All IsBudgeted jobs
    → fail_all t ids now draws jobs ≡ ok jobs'
    → All IsBudgeted jobs'
unfolding fail_all
fail_all-IsBudgeted t [] now draws jobs jobs' a h = subst (All IsBudgeted) (ok_inj jobs jobs' h) a
fail_all-IsBudgeted t (i ∷ ids) now draws jobs jobs' a h =
    let (done, p, q) = >>=-eq_ok (fail t i stuck_error now (draws i) jobs) _ jobs' h in
    fail_all-IsBudgeted t ids now draws done.1 jobs'
      (fail-IsBudgeted t i stuck_error now (draws i) jobs done a p) q

claim-IsBudgeted :
    (t : Uuid) (by : String) (type : Option String) (now : Instant) (jobs : Jobs)
    → All IsBudgeted jobs
    → All IsBudgeted (claim t by type now jobs).1
unfolding claim
claim-IsBudgeted t by type now jobs a = go (oldest (filter (is_claimable t type now) jobs)) refl
  where
    go :
        (o : Option TaskQueueJob)
        → oldest (filter (is_claimable t type now) jobs) ≡ o
        → All IsBudgeted (hand_out by now jobs o).1
    go none e = a
    go (some k) e =
        let (found, fits) = In-filter _ k jobs (In-min_by _ _ k e) in
        let b : IsBudgeted k = All-In IsBudgeted k jobs a found in
        All-save IsBudgeted (claimed by now k) jobs
          ((λ h. ground (arith, b.0)), (λ h. ground arith)) a

complete-IsBudgeted :
    (t i : Uuid) (now : Instant) (jobs : Jobs)
    → All IsBudgeted jobs
    → All IsBudgeted (complete t i now jobs)
unfolding complete
complete-IsBudgeted t i now jobs a = go (get t i jobs)
  where
    go : (o : Option TaskQueueJob) → All IsBudgeted (finished now jobs o)
    go none = a
    go (some j) = All-save IsBudgeted _ jobs ((λ h. ground arith), (λ h. ground arith)) a

call-IsBudgeted :
    (m : Call) (jobs jobs' : Jobs)
    → All IsBudgeted jobs
    → call m jobs ≡ ok jobs'
    → All IsBudgeted jobs'
unfolding call
call-IsBudgeted (add i t type payload run now max pos) jobs jobs' a h =
    subst (All IsBudgeted) (ok_inj _ jobs' h)
      (All-insert IsBudgeted _ jobs ((λ _. pos), (λ e. ground arith)) a)
call-IsBudgeted (take t by type now) jobs jobs' a h =
    subst (All IsBudgeted) (ok_inj _ jobs' h) (claim-IsBudgeted t by type now jobs a)
call-IsBudgeted (finish t i now) jobs jobs' a h =
    subst (All IsBudgeted) (ok_inj _ jobs' h) (complete-IsBudgeted t i now jobs a)
call-IsBudgeted (retry t i error now scaled) jobs jobs' a h =
    let (done, p, q) = >>=-eq_ok (fail t i error now scaled jobs) _ jobs' h in
    subst (All IsBudgeted) (ok_inj _ jobs' q) (fail-IsBudgeted t i error now scaled jobs done a p)
call-IsBudgeted (reap t before now draws) jobs jobs' a h =
    let ids = map (λ j. j.id) (filter (is_stuck t before) jobs) in
    let (done, p, q) = >>=-eq_ok (reap_stuck t before now draws jobs) _ jobs' h in
    let (after, r, s) = >>=-eq_ok (fail_all t ids now draws jobs) _ done p in
    subst (All IsBudgeted) (ap (λ (d : ℕ × Jobs). d.1) (ok_inj _ done s) ∙ ok_inj _ jobs' q)
      (fail_all-IsBudgeted t ids now draws jobs after a r)

-- Whatever calls the workers, the poller and the reaper make, in whatever order and with whatever
-- ids, every job that is pending or running still has an attempt left in its budget and every dead
-- job has used up its own, provided that this holds of the jobs at the start.
pub history-IsBudgeted :
    (jobs : Jobs) (ms : List Call) → All IsBudgeted jobs → All IsBudgeted (history call jobs ms)
history-IsBudgeted jobs ms a = history_inv call (All IsBudgeted) call-IsBudgeted jobs ms a
