-- ===== src/TaskQueue/Store.antt =====
-- The operations of `SqlTaskQueue`, each one statement or a few over the table.
use softbox_ai.Prelude.{
  ℕ, ◌+◌, String, Option, none, some, List, [], ◌∷◌, Bool, true, false, ◌&&◌, ◌==◌, leb, ltb, map,
  str_eq, filter, min_by, length, if◌then◌else◌,
}
use softbox_ai.Errors.{Result, ok, value_error, require, ◌>>=◌}
use softbox_ai.Ids.{Uuid, Instant}
use softbox_ai.Json.{JsonDict}
use softbox_ai.Table.{Row, get, save, insert}
use softbox_ai.Services.TaskBackoff.{Jitter, compute_backoff}

-- The strings of the `status` column.
pub data JobStatus : Type 0 where
  pending running succeeded dead : JobStatus

pub record TaskQueueJob : Type 0 where
  pub id : Uuid
  pub tenant_id : Uuid
  pub job_type : String
  pub payload : JsonDict
  pub status : JobStatus
  pub attempts : ℕ
  pub max_attempts : ℕ
  pub run_at : Instant
  pub claimed_at : Option Instant
  pub claimed_by : Option String
  pub last_error : Option String
  pub created_at : Instant
  pub updated_at : Instant

instance abbrev pub job_row : Row TaskQueueJob
job_row = record { key = λ j. j.id; tenant = λ j. j.tenant_id }

abbrev pub Jobs : Type 0
Jobs = List TaskQueueJob

abbrev pub is_pending : JobStatus → Bool
is_pending pending = true
is_pending _ = false

abbrev pub is_running : JobStatus → Bool
is_running running = true
is_running _ = false

abbrev pub is_dead : JobStatus → Bool
is_dead dead = true
is_dead _ = false

-- The default of the parameter `max_attempts`.
abbrev pub default_max_attempts : ℕ
default_max_attempts = 5

-- `new_id` is what `uuid4()` draws.
unfoldable pub enqueue :
    (new_id tenant_id : Uuid) (job_type : String) (payload : JsonDict) (run_at now : Instant)
    (max_attempts : ℕ)
    → Jobs
    → Jobs
enqueue new_id tenant type payload run_at now max jobs =
    insert
      (record {
        id = new_id;
        tenant_id = tenant;
        job_type = type;
        payload = payload;
        status = pending;
        attempts = 0;
        max_attempts = max;
        run_at = run_at;
        claimed_at = none;
        claimed_by = none;
        last_error = none;
        created_at = now;
        updated_at = now;
      })
      jobs

abbrev pub of_type : Option String → TaskQueueJob → Bool
of_type none j = true
of_type (some type) j = str_eq j.job_type type

-- The `where` of the claim.
abbrev pub is_claimable : Uuid → Option String → Instant → TaskQueueJob → Bool
is_claimable tenant type now j =
    j.tenant_id == tenant && is_pending j.status && leb j.run_at now && of_type type j

-- `order_by(run_at).limit(1)`; of two jobs with one `run_at` the database may return either, and
-- here it is the one inserted first.
unfoldable pub oldest : Jobs → Option TaskQueueJob
oldest jobs = min_by (λ j. j.run_at) jobs

abbrev pub claimed : String → Instant → TaskQueueJob → TaskQueueJob
claimed by now j = record j {
  status = running;
  claimed_at = some now;
  claimed_by = some by;
  updated_at = now;
}

abbrev pub hand_out : String → Instant → Jobs → Option TaskQueueJob → Option TaskQueueJob × Jobs
hand_out by now jobs none = (none, jobs)
hand_out by now jobs (some j) = (some (claimed by now j), save (claimed by now j) jobs)

-- One statement picks the row, updates it and returns it.
unfoldable pub claim : Uuid → String → Option String → Instant → Jobs → Option TaskQueueJob × Jobs
unfolding oldest
claim tenant by type now jobs =
    hand_out by now jobs (oldest (filter (is_claimable tenant type now) jobs))

-- `update … where tenant_id and id`: every column given, on the row if there is one.
abbrev pub finish : Instant → Jobs → Option TaskQueueJob → Jobs
finish now jobs none = jobs
finish now jobs (some j) = save (record j { status = succeeded; updated_at = now }) jobs

unfoldable pub complete : Uuid → Uuid → Instant → Jobs → Jobs
complete tenant id now jobs = finish now jobs (get tenant id jobs)

-- The row that `fail` writes.
abbrev pub failed_once : String → Instant → Jitter → TaskQueueJob → TaskQueueJob
failed_once error now scaled j =
    if leb j.max_attempts (j.attempts + 1)
    then record j {
      status = dead;
      attempts = j.attempts + 1;
      last_error = some error;
      updated_at = now;
    }
    else record j {
      status = pending;
      attempts = j.attempts + 1;
      last_error = some error;
      run_at = now + compute_backoff (j.attempts + 1) scaled;
      updated_at = now;
    }

-- Returns the resulting status.
unfoldable pub fail : Uuid → Uuid → String → Instant → Jitter → Jobs → Result (JobStatus × Jobs)
fail tenant id error now scaled jobs = do
  j ← require (get tenant id jobs) (value_error "Task queue job not found for tenant.")
  ok ((failed_once error now scaled j).status, save (failed_once error now scaled j) jobs)

abbrev pub claimed_earlier : Option Instant → Instant → Bool
claimed_earlier none before = false
claimed_earlier (some at) before = ltb at before

abbrev pub is_stuck : Uuid → Instant → TaskQueueJob → Bool
is_stuck tenant before j =
    j.tenant_id == tenant && is_running j.status && claimed_earlier j.claimed_at before

-- The message without the threshold's text.
abbrev pub stuck_error : String
stuck_error = "Job stayed 'running' without completing or failing — its worker likely crashed."

-- The loop: `fail` for each id, with a draw for each.
unfoldable pub fail_all : Uuid → List Uuid → Instant → (Uuid → Jitter) → Jobs → Result Jobs
unfolding fail
fail_all tenant [] now draws jobs = ok jobs
fail_all tenant (id ∷ ids) now draws jobs =
    fail tenant id stuck_error now (draws id) jobs >>= λ done. fail_all tenant ids now draws done.1

unfoldable pub reap_stuck : Uuid → Instant → Instant → (Uuid → Jitter) → Jobs → Result (ℕ × Jobs)
unfolding fail_all
reap_stuck tenant before now draws jobs = do
  let ids = map (λ j. j.id) (filter (is_stuck tenant before) jobs)
  jobs' ← fail_all tenant ids now draws jobs
  ok (length ids, jobs')
