-- ===== src/RateLimiter.antt =====
-- src/app/infrastructure/persistence/rate_limiter.py, with `fixed_window_start` of
-- src/app/shared/clock.py. A row is found by tenant, bucket and start of the window, which are unique
-- together. The length of a window is positive, as those of all callers are.
pub mod Fairness
use softbox_ai.Prelude.{
  ℕ, ◌+◌, ◌*◌, ◌/◌, String, List, [], ◌∷◌, Bool, true, false, ◌&&◌, ◌==◌, ltb, str_eq,
  if◌then◌else◌,
}
use softbox_ai.Ids.{Uuid, Instant}

pub record RateLimitWindow : Type 0 where
  pub id : Uuid
  pub tenant_id : Uuid
  pub bucket : String
  pub window_start : Instant
  pub count : ℕ

-- The unique key of a row.
pub record WindowKey : Type 0 where
  pub tenant_id : Uuid
  pub bucket : String
  pub window_start : Instant

abbrev pub fixed_window_start : Instant → ℕ → Instant
fixed_window_start now window = (now / window) * window

abbrev pub is_of : WindowKey → RateLimitWindow → Bool
is_of k r =
    r.tenant_id == k.tenant_id && str_eq r.bucket k.bucket && r.window_start == k.window_start

abbrev pub first_call : Uuid → WindowKey → RateLimitWindow
first_call new_id k = record {
  id = new_id;
  tenant_id = k.tenant_id;
  bucket = k.bucket;
  window_start = k.window_start;
  count = 1;
}

-- `insert … on conflict do update set count = count + 1 where count < limit returning count`, and
-- whether it returns a row.
unfoldable pub upsert : Uuid → WindowKey → ℕ → List RateLimitWindow → Bool × List RateLimitWindow
upsert new_id k limit [] = (true, first_call new_id k ∷ [])
upsert new_id k limit (r ∷ rows) =
    let rest = upsert new_id k limit rows in
    if is_of k r
    then (if ltb r.count limit
        then (true, record r { count = r.count + 1 } ∷ rows)
        else (false, r ∷ rows))
    else (rest.0, r ∷ rest.1)

unfoldable pub allow :
    (new_id tenant_id : Uuid) (bucket : String) (limit window : ℕ) (now : Instant)
    → List RateLimitWindow
    → Bool × List RateLimitWindow
unfolding upsert
allow new_id tenant bucket limit window now rows =
    upsert new_id
      (record { tenant_id = tenant; bucket = bucket; window_start = fixed_window_start now window })
      limit rows
