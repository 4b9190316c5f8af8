-- ===== src/Features/Generation/ReconcileGenerationRequests/Split.antt =====
-- About the reservation of a request that settles.
use softbox_ai.Prelude.{
  ℕ, ◌+◌, ◌≡◌, ◌==◌, String, some, List, true, Bool-cases, inl, inr, refl, arith, subst, sym,
  length,
}
use softbox_ai.Errors.{ok}
use softbox_ai.Ids.{Uuid, Instant}
use softbox_ai.Table
use softbox_ai.Table.{save}
use softbox_ai.Table.Laws.{key-get, get-save_self}
use softbox_ai.Entities.GenerationRequest.{
  GenerationRequest, GenerationRequestStatus, queued, running, succeeded, partially_failed, failed,
  cancelled, mark_succeeded, mark_partially_failed, mark_failed,
}
use softbox_ai.Entities.SpecSnapshot.{CategorySpecVersion}
use softbox_ai.Services.GenerationRequestRollup.{RequestRollup, compute_rollup}
use softbox_ai.Services.GenerationRequestRollup.Totals.{Fits, Rollup, compute_rollup_lem}
use softbox_ai.Quota.Reservations.{QuotaReservation, QuotaKey, Rows, commit, covers, get}
use softbox_ai.Quota.Units.{get-commit, get-release, covers-commit}
use softbox_ai.UnitOfWork.{Db, request_row, spec_version_row}
use softbox_ai.Features.Generation.ReconcileGenerationRequests.{
  reconcile_one, settle_request, settle_as, reconcile_quota, commit_units, release_units, quota_key,
  required_slot_ids, list_for_request,
}

settle_as-Fits :
    (status : GenerationRequestStatus) (now : Instant) (request : GenerationRequest) (s f : ℕ)
    → Fits status s f
    → request.status ≡ running
    → settle_as status now request
      ≡ ok (record request { status = status; completed_at = some now })
unfolding settle_as mark_succeeded mark_partially_failed mark_failed
settle_as-Fits succeeded now request s f p e = rw e refl
settle_as-Fits partially_failed now request s f p e = rw e refl
settle_as-Fits failed now request s f p e = rw e refl
settle_as-Fits queued now request s f p e = absurd p
settle_as-Fits running now request s f p e = absurd p
settle_as-Fits cancelled now request s f p e = absurd p

-- The rows of a key after `s` delivered and `f` returned units.
abbrev pub IsSplit : QuotaKey → QuotaReservation → ℕ → ℕ → Rows → Type 0
IsSplit k r s f rows =
    (r' : QuotaReservation) × (get k rows ≡ some r')
    × (r'.committed ≡ r.committed + s)
    × (r'.reserved + f ≡ r.reserved)
    × (r'.limit_value ≡ r.limit_value)

module _ (k : QuotaKey) (r : QuotaReservation) where
  committed_rows :
      (n m : ℕ) (db : Db)
      → get k db.quota_reservations ≡ some r
      → covers k m db.quota_reservations ≡ true
      → (rows : Rows) × (commit_units k n db ≡ ok (tt, record db { quota_reservations = rows }))
        × (covers k m rows ≡ true)
        × IsSplit k r n 0 rows
  committed_rows n m db e c = elim (Bool-cases (n == 0)) [
    | inl z ↦ (db.quota_reservations, rw z refl, c, (r, e, ground arith, omega arith, refl))
    | inr z ↦ (
      commit k n db.quota_reservations,
      rw z refl,
      rw (covers-commit k m n db.quota_reservations) c,
      (_, get-commit k n db.quota_reservations r e, refl, omega arith, refl),
    )
  ]

  released_rows :
      (n : ℕ) (db : Db)
      → get k db.quota_reservations ≡ some r
      → covers k n db.quota_reservations ≡ true
      → (rows : Rows) × (release_units k n db ≡ ok (tt, record db { quota_reservations = rows }))
        × IsSplit k r 0 n rows
  released_rows n db e c = elim (Bool-cases (n == 0)) [
    | inl z ↦ (db.quota_reservations, rw z refl, (r, e, omega arith, ground arith, refl))
    | inr z ↦
        let (rows, p, q, l) = get-release k n db.quota_reservations r e c in
        (rows, rw (z, p) refl, (_, q, omega arith, omega arith, refl))
  ]

reconcile_quota-IsSplit :
    (k : QuotaKey) (r : QuotaReservation) (id : Uuid) (rollup : RequestRollup) (db : Db)
    → get k db.quota_reservations ≡ some r
    → r.id ≡ id
    → covers k rollup.failed_slot_count db.quota_reservations ≡ true
    → (rows : Rows) × (reconcile_quota k (some id) rollup db
        ≡ ok (tt, record db { quota_reservations = rows }))
      × IsSplit k r rollup.succeeded_slot_count rollup.failed_slot_count rows
unfolding reconcile_quota
reconcile_quota-IsSplit k r id rollup db e i c =
    let (rows₁, p₁, c₁, (r₁, e₁, a₁, b₁, l₁)) =
      committed_rows k r rollup.succeeded_slot_count rollup.failed_slot_count db e c in
    let db₁ : Db = record db { quota_reservations = rows₁ } in
    let (rows₂, p₂, (r₂, e₂, a₂, b₂, l₂)) = released_rows k r₁ rollup.failed_slot_count db₁ e₁ c₁ in
    let t : (r.id == id) ≡ true = ground arith in
    (rows₂, rw (e, t, p₁, p₂) refl, (r₂, e₂, omega arith, omega arith, ground arith))

settle_request-returns :
    (tenant : Uuid) (period_of : Instant → String) (now : Instant)
    (request request' : GenerationRequest) (rollup : RequestRollup) (st : GenerationRequestStatus)
    (db db' : Db)
    → settle_as st now request ≡ ok request'
    → reconcile_quota
        (quota_key tenant (period_of request'.created_at))
        request'.quota_reservation_id
        rollup
        (record db { generation_requests = save request' db.generation_requests })
      ≡ ok (tt, db')
    → settle_request tenant period_of now request rollup (some st) db ≡ ok (1, db')
unfolding settle_request
settle_request-returns tenant period_of now request request' rollup st db db' m p = rw (m, p) refl

-- What the sweep reads of a request and its pinned version.
abbrev pub rollup_of : Uuid → GenerationRequest → CategorySpecVersion → Db → RequestRollup
rollup_of tenant request spec db =
    compute_rollup (required_slot_ids spec.snapshot)
      (list_for_request tenant request.id db.generation_items)

abbrev pub settled_with : GenerationRequestStatus → Instant → GenerationRequest → GenerationRequest
settled_with st now request = record request { status = st; completed_at = some now }

module _ (tenant : Uuid) (period_of : Instant → String) (now : Instant)
    (request : GenerationRequest) (db : Db) (spec : CategorySpecVersion)
    (st : GenerationRequestStatus) (id : Uuid) (r : QuotaReservation) where
  abbrev slots : List Uuid
  slots = required_slot_ids spec.snapshot

  abbrev rollup : RequestRollup
  rollup = rollup_of tenant request spec db

  abbrev key : QuotaKey
  key = quota_key tenant (period_of request.created_at)

  abbrev settled : GenerationRequest
  settled = settled_with st now request

  -- A running request whose slots have all resolved, with a reservation row that is its own and holds
  -- at least the units to give back, is settled: it is stored with the rollup's status and the time,
  -- and the row has the delivered slots committed and the failed slots taken off its reserved units,
  -- which together are all the required slots, its limit as before.
  pub reconcile_one-IsSplit :
      Table.get tenant request.id db.generation_requests ≡ some request
      → Table.get tenant request.spec_version_id db.category_spec_versions ≡ some spec
      → request.status ≡ running
      → request.quota_reservation_id ≡ some id
      → rollup.status ≡ some st
      → get key db.quota_reservations ≡ some r
      → r.id ≡ id
      → covers key rollup.failed_slot_count db.quota_reservations ≡ true
      → (db' : Db) × (reconcile_one tenant period_of now request db ≡ ok (1, db'))
        × (Table.get tenant request.id db'.generation_requests ≡ some settled)
        × (rollup.succeeded_slot_count + rollup.failed_slot_count ≡ length slots)
        × IsSplit key r rollup.succeeded_slot_count rollup.failed_slot_count db'.quota_reservations
  unfolding reconcile_one
  reconcile_one-IsSplit g e s q u v i c =
      let items = list_for_request tenant request.id db.generation_items in
      let (a, b, total, fits) =
        subst (Rollup slots items rollup) u (compute_rollup_lem slots items) in
      let m = settle_as-Fits st now request _ _ fits s in
      let db₁ : Db = record db { generation_requests = save settled db.generation_requests } in
      let (rows, p, split) = reconcile_quota-IsSplit key r id rollup db₁ v i c in
      let db₂ : Db = record db₁ { quota_reservations = rows } in
      let p' = subst (λ o. reconcile_quota key o rollup db₁ ≡ ok (tt, db₂)) (sym q) p in
      let returns =
        settle_request-returns tenant period_of now request settled rollup st db db₂ m p' in
      (
        db₂,
        rw e (
            subst (λ o. settle_request tenant period_of now request rollup o db ≡ ok (1, db₂))
              (sym u) returns),
        get-save_self tenant request.id db.generation_requests request settled g
            (key-get tenant request.id db.generation_requests request g).0
            (key-get tenant request.id db.generation_requests request g).1,
        total,
        split,
      )
