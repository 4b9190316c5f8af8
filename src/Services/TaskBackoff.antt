-- ===== src/Services/TaskBackoff.antt =====
-- src/app/services/task_backoff.py. `timedelta(seconds=ceiling * jitter)` is floating point: it is
-- a parameter, the function `scaled` from the ceiling in seconds to the delay in microseconds that
-- one draw of `random.random()` gives. A draw lies in [0, 1), so a delay is at most the ceiling.
-- From attempt 1025 on the source's product of floats overflows and raises; a job has 5 attempts by
-- default.
use softbox_ai.Prelude.{ℕ, zero, suc, ◌*◌, ◌^◌, ◌≤◌, arith, leb, if◌then◌else◌}
use softbox_ai.Ids.{seconds}

abbrev pub Jitter : Type 0
Jitter = ℕ → ℕ

abbrev pub IsJitter : Jitter → Type 0
IsJitter scaled = (ceiling : ℕ) → scaled ceiling ≤ seconds ceiling

abbrev pub cap_seconds : ℕ
cap_seconds = 300

abbrev pub base_seconds : ℕ
base_seconds = 2

abbrev pub stuck_job_threshold : ℕ
stuck_job_threshold = seconds 600

-- `2.0 * 2 ** (attempt - 1)`, which is 1 at attempt 0; the attempts are counted from 1.
pub window : ℕ → ℕ
window zero = 1
window (suc n) = base_seconds * 2 ^ n

-- `min(cap, base * 2 ** (attempt - 1))`.
pub ceiling : ℕ → ℕ
unfolding window
ceiling attempt = if leb cap_seconds (window attempt) then cap_seconds else window attempt

unfoldable pub compute_backoff : ℕ → Jitter → ℕ
unfolding ceiling
compute_backoff attempt scaled = scaled (ceiling attempt)

-- The delay never passes five minutes, and before the cap it never passes the doubling window.
pub compute_backoff_bounds :
    (attempt : ℕ) (scaled : Jitter)
    → IsJitter scaled
    → (compute_backoff attempt scaled ≤ seconds cap_seconds)
      × (compute_backoff attempt scaled ≤ seconds (window attempt))
unfolding compute_backoff
compute_backoff_bounds attempt scaled h =
    (ground (arith, h (ceiling attempt)), ground (arith, h (ceiling attempt)))
