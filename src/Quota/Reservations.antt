-- ===== src/Quota/Reservations.antt =====
-- The operations of `SqlQuotaReservationRepository`. A row is found by tenant, period and metric,
-- which are unique together; a `WHERE` that no row meets updates nothing.
-- Amounts are natural numbers; the source's are integers whose sign it does not check.
use softbox_ai.Prelude.{
  ℕ, ◌+◌, ◌-◌, String, Option, List, [], ◌∷◌, ◌++◌, Bool, true, ◌&&◌, ◌==◌, leb, any, find, str_eq,
  if◌then◌else◌,
}
use softbox_ai.Errors.{Result, ok, guard, integrity_error, ◌>>◌}
use softbox_ai.Ids.{Uuid}

pub record QuotaReservation : Type 0 where
  pub id : Uuid
  pub tenant_id : Uuid
  pub period : String
  pub metric : String
  pub limit_value : ℕ
  pub reserved : ℕ
  pub committed : ℕ

abbrev pub Rows : Type 0
Rows = List QuotaReservation

-- The unique key of a row.
pub record QuotaKey : Type 0 where
  pub tenant_id : Uuid
  pub period : String
  pub metric : String

abbrev pub matches : QuotaKey → QuotaReservation → Bool
matches k r = k.tenant_id == r.tenant_id && str_eq r.period k.period && str_eq r.metric k.metric

-- `update … where key and test`.
abbrev pub update_where :
    QuotaKey → (QuotaReservation → Bool) → (QuotaReservation → QuotaReservation) → Rows → Rows
update_where k test f [] = []
update_where k test f (r ∷ rows) =
    (if matches k r && test r then f r else r) ∷ update_where k test f rows

-- `ON CONFLICT DO NOTHING`; `new_id` is what `uuid4()` draws.
unfoldable pub ensure_period : Uuid → QuotaKey → ℕ → Rows → Rows
ensure_period new_id k limit rows =
    if any (matches k) rows
    then rows
    else rows
      ++ (record {
        id = new_id;
        tenant_id = k.tenant_id;
        period = k.period;
        metric = k.metric;
        limit_value = limit;
        reserved = 0;
        committed = 0;
      })
        ∷ []

-- `limit_value - reserved >= quantity`, over the integers.
abbrev pub has_room : ℕ → QuotaReservation → Bool
has_room quantity r = leb (r.reserved + quantity) r.limit_value

-- True when a row was returned.
unfoldable pub reserve : QuotaKey → ℕ → Rows → Bool × Rows
reserve k quantity rows = (
  any (λ r. matches k r && has_room quantity r) rows,
  update_where k (has_room quantity) (λ r. record r { reserved = r.reserved + quantity }) rows,
)

unfoldable pub commit : QuotaKey → ℕ → Rows → Rows
commit k quantity rows =
    update_where k (λ r. true) (λ r. record r { committed = r.committed + quantity }) rows

-- Every row of the key has that much reserved.
abbrev pub covers : QuotaKey → ℕ → Rows → Bool
covers k quantity [] = true
covers k quantity (r ∷ rows) =
    (if matches k r then leb quantity r.reserved else true) && covers k quantity rows

-- The `CHECK (reserved >= 0)` of the table refuses the statement when a row would go below zero.
unfoldable pub release : QuotaKey → ℕ → Rows → Result Rows
release k quantity rows = do
  guard (covers k quantity rows) (integrity_error "ck_quota_reservations_reserved_non_negative")
  ok (update_where k (λ r. true) (λ r. record r { reserved = r.reserved - quantity }) rows)

unfoldable pub get : QuotaKey → Rows → Option QuotaReservation
get k rows = find (matches k) rows
