-- ===== src/Features/Products/CreateGenerationRequest/Reserves.antt =====
-- About a generation request and the row of the budget that it takes units from.
use softbox_ai.Prelude.{
  ℕ, ◌+◌, ◌≤◌, ◌≡◌, ◌∙◌, refl, sym, ap, inl, inr, String, some, [], ◌∷◌, ◌++◌, true, false, ◌&&◌,
  ◌==◌, any, find, length, length-append, some_inj, Bool-cases, arith,
}
use softbox_ai.Errors.{ok}
use softbox_ai.Ids.{Uuid, Instant}
use softbox_ai.Json.{entry, empty, uuid}
use softbox_ai.Table
use softbox_ai.Entities.Product.{Product}
use softbox_ai.Entities.ProductVariant.{ProductVariant}
use softbox_ai.Entities.SpecSnapshot.{CategorySpecVersion}
use softbox_ai.Entities.GenerationRequest
use softbox_ai.Entities.GenerationRequest.{GenerationRequest}
use softbox_ai.Quota.Reservations.{
  QuotaReservation, QuotaKey, Rows, matches, update_where, has_room, reserve, get,
}
use softbox_ai.UnitOfWork.{Db, add_event, product_row, variant_row, spec_version_row, request_row}
use softbox_ai.Features.Generation.ReconcileGenerationRequests.{quota_metric}
use softbox_ai.Features.Products.CreateGenerationRequest.{
  required_slot_count, reserve_quota, creation_entry, create_generation_request,
}

abbrev with_units : ℕ → QuotaReservation → QuotaReservation
with_units n r = record r { reserved = r.reserved + n }

find-head :
    (k : QuotaKey) (x : QuotaReservation) (rows : Rows) (r : QuotaReservation)
    → find (matches k) (x ∷ rows) ≡ some r
    → matches k x ≡ true
    → x ≡ r
find-head k x rows r h m = some_inj x r (sym (rw m refl) ∙ h)

find-tail :
    (k : QuotaKey) (x : QuotaReservation) (rows : Rows) (r : QuotaReservation)
    → find (matches k) (x ∷ rows) ≡ some r
    → matches k x ≡ false
    → find (matches k) rows ≡ some r
find-tail k x rows r h m = sym (rw m refl) ∙ h

matches-with_units :
    (k : QuotaKey) (n : ℕ) (r : QuotaReservation) → matches k (with_units n r) ≡ matches k r
matches-with_units k n r = refl

-- The row a key finds is the one that takes the units.
get-reserve :
    (k : QuotaKey) (n : ℕ) (rows : Rows) (r : QuotaReservation)
    → find (matches k) rows ≡ some r
    → has_room n r ≡ true
    → find (matches k) (update_where k (has_room n) (with_units n) rows) ≡ some (with_units n r)
get-reserve k n [] r h room = cc
get-reserve k n (x ∷ rows) r h room = elim (Bool-cases (matches k x)) [
  | inl m ↦
      let p = find-head k x rows r h m in
      rw (m, ap (has_room n) p ∙ room, matches-with_units k n x, m)
        (ap (λ y. some (with_units n y)) p)
  | inr m ↦ rw (m, m) (get-reserve k n rows r (find-tail k x rows r h m) room)
]

any-reserve :
    (k : QuotaKey) (n : ℕ) (rows : Rows) (r : QuotaReservation)
    → find (matches k) rows ≡ some r
    → has_room n r ≡ true
    → any (λ x. matches k x && has_room n x) rows ≡ true
any-reserve k n [] r h room = cc
any-reserve k n (x ∷ rows) r h room = elim (Bool-cases (matches k x)) [
  | inl m ↦ rw (m, ap (has_room n) (find-head k x rows r h m) ∙ room) refl
  | inr m ↦ rw m (any-reserve k n rows r (find-tail k x rows r h m) room)
]

-- What the use case leaves when the units are held.
abbrev pub Requested :
    Uuid
    → Uuid
    → Uuid
    → Uuid
    → Uuid
    → Uuid
    → (Instant → String)
    → Instant
    → Db
    → QuotaKey
    → ℕ
    → QuotaReservation
    → Type 0
Requested new_id event_id t product_id variant_id user period_of now db k n r =
    (request : GenerationRequest) × (db' : Db) × (create_generation_request new_id event_id t
        product_id variant_id user period_of now db
      ≡ ok (request, db'))
    × (request.status ≡ GenerationRequest.queued)
    × (request.quota_reservation_id ≡ some r.id)
    × (db'.generation_requests ≡ db.generation_requests ++ request ∷ [])
    × (get k db'.quota_reservations ≡ some (with_units n r))
    × (r.reserved + n ≤ r.limit_value)
    × (length db'.outbox_events ≡ length db.outbox_events + 1)

-- A request for a stored product with one of its variants, whose spec is stored and requires a slot, in a
-- month whose budget has a row: where the budget has room for the required slots it is made, queued,
-- with one event, and refers to that row, which then has exactly as many units more reserved, within its limit.
pub create_generation_request_lem :
    (new_id event_id t product_id variant_id user : Uuid) (period_of : Instant → String)
    (now : Instant) (db : Db) (product : Product) (variant : ProductVariant)
    (spec : CategorySpecVersion) (r : QuotaReservation)
    → Table.get t product_id db.products ≡ some product
    → Table.get t variant_id db.product_variants ≡ some variant
    → (variant.product_id == product_id) ≡ true
    → Table.get t product.spec_version_id db.category_spec_versions ≡ some spec
    → (required_slot_count spec.snapshot == 0) ≡ false
    → get
        (record { tenant_id = t; period = period_of now; metric = quota_metric })
        db.quota_reservations
      ≡ some r
    → has_room (required_slot_count spec.snapshot) r ≡ true
    → Requested new_id event_id t product_id variant_id user period_of now db
        (record { tenant_id = t; period = period_of now; metric = quota_metric })
        (required_slot_count spec.snapshot)
        r
unfolding create_generation_request reserve_quota reserve get GenerationRequest.create
create_generation_request_lem new_id event_id t product_id variant_id user period_of now db product
      variant spec r h1 h2 h3 h4 h5 h6 h7 =
    let k : QuotaKey = record { tenant_id = t; period = period_of now; metric = quota_metric } in
    let n = required_slot_count spec.snapshot in
    let request =
      GenerationRequest.create new_id t product_id variant_id product.spec_version_id empty
        (some r.id) user now in
    let rows = update_where k (has_room n) (with_units n) db.quota_reservations in
    let held = get-reserve k n db.quota_reservations r h6 h7 in
    (
      request,
      record (add_event event_id t "generation_request.created"
          (entry "generation_request_id" (uuid new_id) empty) now db) {
            quota_reservations = rows;
            generation_requests = db.generation_requests ++ request ∷ [];
            audit_log =
                db.audit_log ++ creation_entry t user new_id product_id variant_id n now ∷ [];
          },
      rw (h1, h2, h3, h4, h5, any-reserve k n db.quota_reservations r h6 h7, held) refl,
      refl,
      refl,
      refl,
      held,
      ground (arith, h7),
      length-append db.outbox_events _,
    )
