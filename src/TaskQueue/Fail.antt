-- ===== src/TaskQueue/Fail.antt =====
-- About `fail`: the row that it writes and when that is due.
use softbox_ai.Prelude.{◌+◌, ◌≤◌, ◌<◌, ◌≡◌, ◌⊎◌, inl, inr, String, some, Bool-cases, arith, ◌==◌}
use softbox_ai.Errors.{ok, require, require-eq_ok, >>=-eq_ok}
use softbox_ai.Ids.{Uuid, Instant, seconds}
use softbox_ai.Table.{get, save}
use softbox_ai.Table.Laws.{key-get, get-save_self, get-save_ne}
use softbox_ai.Services.TaskBackoff.{Jitter, IsJitter, compute_backoff_bounds, cap_seconds}
use softbox_ai.TaskQueue.Store.{
  TaskQueueJob, Jobs, JobStatus, pending, dead, job_row, failed_once, fail,
}

-- The row that `fail` leaves: one attempt more; dead when the budget is used up, otherwise pending
-- again, due after now by at most the five minutes of the cap.
abbrev pub Retried : String → Instant → TaskQueueJob → TaskQueueJob → Type 0
Retried error now j j' =
    (j'.attempts ≡ j.attempts + 1)
    × (j'.last_error ≡ some error)
    × ((j'.status ≡ dead) × (j.max_attempts ≤ j.attempts + 1)
        ⊎ (j'.status ≡ pending)
          × (j.attempts + 1 < j.max_attempts)
          × (now ≤ j'.run_at)
          × (j'.run_at ≤ now + seconds cap_seconds))

failed_once_lem :
    (error : String) (now : Instant) (scaled : Jitter) (j : TaskQueueJob)
    → IsJitter scaled
    → Retried error now j (failed_once error now scaled j)
failed_once_lem error now scaled j h =
    ground (arith, (compute_backoff_bounds (j.attempts + 1) scaled h).0)

module _ (tenant id : Uuid) (error : String) (now : Instant) (scaled : Jitter) where
  -- A failed job that exists gains one attempt. When that uses up its budget it is dead; otherwise
  -- it is pending again and due between now and five minutes from now. The status returned is the
  -- one written, and no other row of the table changes.
  pub fail_lem :
      (jobs : Jobs) (j : TaskQueueJob)
      → IsJitter scaled
      → get tenant id jobs ≡ some j
      → (j' : TaskQueueJob) × (jobs' : Jobs) × (fail tenant id error now scaled jobs
          ≡ ok (j'.status, jobs'))
        × (get tenant id jobs' ≡ some j')
        × Retried error now j j'
        × ((t i : Uuid) → (i ≡ id) ⊎ (get t i jobs' ≡ get t i jobs))
  unfolding fail
  fail_lem jobs j h e =
      let j' = failed_once error now scaled j in
      let k = key-get tenant id jobs j e in
      (
        j',
        save j' jobs,
        rw (e, fail),
        get-save_self tenant id jobs j j' e (ground arith) (ground arith),
        failed_once_lem error now scaled j h,
        λ t i. elim (Bool-cases (i == id)) [
          | inl same ↦ inl (ground arith)
          | inr ne ↦ inr (get-save_ne t i jobs j' (ground arith))
        ],
      )

-- What `fail` returns, when it returns.
pub fail-eq_ok :
    (t i : Uuid) (error : String) (now : Instant) (scaled : Jitter) (jobs : Jobs)
    (done : JobStatus × Jobs)
    → fail t i error now scaled jobs ≡ ok done
    → (j : TaskQueueJob) × (get t i jobs ≡ some j)
      × (done
          ≡ ((failed_once error now scaled j).status, save (failed_once error now scaled j) jobs))
unfolding fail
fail-eq_ok t i error now scaled jobs done h =
    let (j, p, q) = >>=-eq_ok (require (get t i jobs) _) _ done h in (j, require-eq_ok _ _ j p, cc)
