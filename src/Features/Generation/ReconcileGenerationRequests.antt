-- ===== src/Features/Generation/ReconcileGenerationRequests.antt =====
-- src/app/features/generation/reconcile_generation_requests_for_tenant.py, with the two list queries
-- that it runs. `period_of` is `strftime("%Y-%m")` of an instant.
pub mod Split
use softbox_ai.Prelude.{
  ℕ, ◌+◌, String, Option, none, some, List, [], ◌∷◌, Bool, ◌&&◌, ◌==◌, filter, map, take, sort_by,
  if◌then◌else◌,
}
use softbox_ai.Errors.{Result, err, guard, not_found, not_implemented}
use softbox_ai.Ids.{Uuid, Instant}
use softbox_ai.Table
use softbox_ai.Table.{save}
use softbox_ai.Entities.GenerationItem.{GenerationItem}
use softbox_ai.Entities.GenerationRequest.{
  GenerationRequest, GenerationRequestStatus, succeeded, partially_failed, failed, is_running,
  mark_succeeded, mark_partially_failed, mark_failed,
}
use softbox_ai.Entities.SpecSnapshot.{SpecSnapshot}
use softbox_ai.Services.GenerationRequestRollup.{RequestRollup, compute_rollup}
use softbox_ai.Quota.Reservations.{QuotaKey, commit, release, get}
use softbox_ai.UnitOfWork.{
  Db, Tx, pure, lift, gets, found, modify, request_row, spec_version_row, ◌>>=◌, ◌>>◌,
}

abbrev pub quota_metric : String
quota_metric = "generation.images"

abbrev pub quota_key : Uuid → String → QuotaKey
quota_key tenant period = record { tenant_id = tenant; period = period; metric = quota_metric }

-- Rows of one `created_at` come in the order of insertion here; the database may give them in any.
unfoldable pub list_running_for_update : Uuid → ℕ → List GenerationRequest → List GenerationRequest
list_running_for_update tenant limit rows =
    take limit (
      sort_by (λ r. r.created_at) (filter (λ r. r.tenant_id == tenant && is_running r.status) rows))

abbrev pub list_for_request : Uuid → Uuid → List GenerationItem → List GenerationItem
list_for_request tenant request rows =
    filter (λ i. i.tenant_id == tenant && i.request_id == request) rows

abbrev pub required_slot_ids : SpecSnapshot → List Uuid
required_slot_ids s =
    map (λ slot. slot.id) (filter (λ slot. slot.is_required) s.catalog_image_slots)

-- The chain of `if rollup.status == …`.
unfoldable pub settle_as :
    GenerationRequestStatus → Instant → GenerationRequest → Result GenerationRequest
settle_as succeeded now request = mark_succeeded now request
settle_as partially_failed now request = mark_partially_failed now request
settle_as failed now request = mark_failed now request
settle_as _ now request = err (not_implemented "Unhandled rollup status.")

abbrev pub commit_units : QuotaKey → ℕ → Tx (Unit {0})
commit_units k n =
    if n == 0
    then pure tt
    else modify (λ db. record db { quota_reservations = commit k n db.quota_reservations })

abbrev pub release_units : QuotaKey → ℕ → Tx (Unit {0})
release_units k n = if n == 0 then pure tt else do
  rows ← gets (λ db. db.quota_reservations)
  rows' ← lift (release k n rows)
  modify (λ db. record db { quota_reservations = rows' })

-- `if request.quota_reservation_id is not None`.
unfoldable pub reconcile_quota : QuotaKey → Option Uuid → RequestRollup → Tx (Unit {0})
reconcile_quota k none rollup = pure tt
reconcile_quota k (some id) rollup = do
  reservation ← found (λ db. get k db.quota_reservations) (not_found "Quota reservation mismatch.")
  lift (guard (reservation.id == id) (not_found "Quota reservation mismatch."))
  commit_units k rollup.succeeded_slot_count
  release_units k rollup.failed_slot_count

-- What follows `if rollup.status is None: continue`; the result is the count of settled requests.
unfoldable pub settle_request :
    Uuid
    → (Instant → String)
    → Instant
    → GenerationRequest
    → RequestRollup
    → Option GenerationRequestStatus
    → Tx ℕ
settle_request tenant period_of now request rollup none = pure 0
settle_request tenant period_of now request rollup (some status) = do
  request' ← lift (settle_as status now request)
  modify (λ db. record db { generation_requests = save request' db.generation_requests })
  reconcile_quota (quota_key tenant (period_of request'.created_at)) request'.quota_reservation_id
      rollup
  pure 1

-- The body of the loop.
unfoldable pub reconcile_one : Uuid → (Instant → String) → Instant → GenerationRequest → Tx ℕ
reconcile_one tenant period_of now request = do
  spec ←
      found (λ db. Table.get tenant request.spec_version_id db.category_spec_versions)
        (not_found "The request's pinned spec version is missing (data inconsistency).")
  items ← gets (λ db. list_for_request tenant request.id db.generation_items)
  let rollup = compute_rollup (required_slot_ids spec.snapshot) items
  settle_request tenant period_of now request rollup rollup.status

unfoldable pub reconcile_all :
    Uuid → (Instant → String) → Instant → List GenerationRequest → ℕ → Tx ℕ
unfolding reconcile_one
reconcile_all tenant period_of now [] settled = pure settled
reconcile_all tenant period_of now (request ∷ requests) settled =
    reconcile_one tenant period_of now request >>= λ n.
    reconcile_all tenant period_of now requests (settled + n)

unfoldable pub reconcile_generation_requests : Uuid → ℕ → (Instant → String) → Instant → Tx ℕ
unfolding list_running_for_update reconcile_all
reconcile_generation_requests tenant limit period_of now = do
  requests ← gets (λ db. list_running_for_update tenant limit db.generation_requests)
  reconcile_all tenant period_of now requests 0
