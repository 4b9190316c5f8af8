-- ===== src/Quota/Units.antt =====
-- What committing and releasing units does to the one row of a key.
use softbox_ai.Prelude.{
  ℕ, ◌+◌, ◌-◌, ◌≤◌, ◌≡◌, some, [], ◌∷◌, true, Bool-cases, inl, inr, arith, refl, find, some_inj,
  sym,
}
use softbox_ai.Errors.{ok}
use softbox_ai.Quota.Reservations.{
  QuotaReservation, QuotaKey, Rows, matches, update_where, commit, release, covers, get,
}

-- An update of every row of a key updates the row that the key finds.
get-update_where :
    (k : QuotaKey) (f : QuotaReservation → QuotaReservation)
    (keep : (r : QuotaReservation) → matches k (f r) ≡ matches k r) (rows : Rows)
    (r : QuotaReservation)
    → find (matches k) rows ≡ some r
    → find (matches k) (update_where k (λ r. true) f rows) ≡ some (f r)
get-update_where k f keep [] r e = ground arith
get-update_where k f keep (x ∷ rows) r e = elim (Bool-cases (matches k x)) [
  | inl m ↦ let p = some_inj x r (rw m at e) in rw (m, keep x, m, p) refl
  | inr m ↦ rw (m, m) (get-update_where k f keep rows r (rw m at e))
]

covers-get :
    (k : QuotaKey) (n : ℕ) (rows : Rows) (r : QuotaReservation)
    → covers k n rows ≡ true
    → find (matches k) rows ≡ some r
    → n ≤ r.reserved
covers-get k n [] r c e = ground arith
covers-get k n (x ∷ rows) r c e = elim (Bool-cases (matches k x)) [
  | inl m ↦ let p = some_inj x r (rw m at e) in rw (sym p) (ground arith)
  | inr m ↦ covers-get k n rows r (ground arith) (rw m at e)
]

pub covers-commit :
    (k : QuotaKey) (n m : ℕ) (rows : Rows) → covers k n (commit k m rows) ≡ covers k n rows
unfolding commit
covers-commit k n m [] = refl
covers-commit k n m (x ∷ rows) = elim (Bool-cases (matches k x)) [
  | inl e ↦ rw (e, e, covers-commit k n m rows) refl
  | inr e ↦ rw (e, e, covers-commit k n m rows) refl
]

pub get-commit :
    (k : QuotaKey) (n : ℕ) (rows : Rows) (r : QuotaReservation)
    → get k rows ≡ some r
    → get k (commit k n rows) ≡ some (record r { committed = r.committed + n })
unfolding get commit
get-commit k n rows r e = get-update_where k _ (λ r. refl) rows r e

pub get-release :
    (k : QuotaKey) (n : ℕ) (rows : Rows) (r : QuotaReservation)
    → get k rows ≡ some r
    → covers k n rows ≡ true
    → (rows' : Rows) × (release k n rows ≡ ok rows')
      × (get k rows' ≡ some (record r { reserved = r.reserved - n }))
      × (n ≤ r.reserved)
unfolding get release
get-release k n rows r e c = (
  update_where k (λ r. true) (λ r. record r { reserved = r.reserved - n }) rows,
  rw c refl,
  get-update_where k _ (λ r. refl) rows r e,
  covers-get k n rows r c e,
)
