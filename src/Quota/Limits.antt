-- ===== src/Quota/Limits.antt =====
-- The reserved units of a budget and its limit, under any sequence of the operations of
-- quota_reservation_repository.py.
use softbox_ai.Prelude.{
  ℕ, ◌≤◌, ◌≡◌, List, [], ◌∷◌, Bool, true, false, ◌&&◌, All, All-append, any, Bool-cases, inl, inr,
  arith, refl, subst, if◌then◌else◌,
}
use softbox_ai.Errors.{Result, ok, guard, >>=-eq_ok, ok_inj}
use softbox_ai.Ids.{Uuid}
use softbox_ai.Entities.History.{history, history_inv}
use softbox_ai.Quota.Reservations.{
  QuotaReservation, QuotaKey, Rows, matches, update_where, has_room, ensure_period, reserve, commit,
  release, covers,
}

pub data Call : Type 0 where
  provision : Uuid → QuotaKey → ℕ → Call
  hold spend free : QuotaKey → ℕ → Call

pub call : Call → Rows → Result Rows
unfolding ensure_period reserve commit release
call (provision i k limit) rows = ok (ensure_period i k limit rows)
call (hold k n) rows = ok (reserve k n rows).1
call (spend k n) rows = ok (commit k n rows)
call (free k n) rows = release k n rows

abbrev pub WithinLimit : QuotaReservation → Type 0
WithinLimit r = r.reserved ≤ r.limit_value

All-update_where :
    (k : QuotaKey) (test : QuotaReservation → Bool) (f : QuotaReservation → QuotaReservation)
    (rows : Rows)
    → ((r : QuotaReservation) → WithinLimit r → test r ≡ true → WithinLimit (f r))
    → All WithinLimit rows
    → All WithinLimit (update_where k test f rows)
All-update_where k test f [] keep a = tt
All-update_where k test f (r ∷ rows) keep a =
    (go (matches k r) (test r) refl, All-update_where k test f rows keep a.1)
  where
    go : (b c : Bool) → test r ≡ c → WithinLimit (if b && c then f r else r)
    go true true e = keep r a.0 e
    go true false e = a.0
    go false c e = a.0

ensure_period-WithinLimit :
    (i : Uuid) (k : QuotaKey) (limit : ℕ) (rows : Rows)
    → All WithinLimit rows
    → All WithinLimit (ensure_period i k limit rows)
unfolding ensure_period
ensure_period-WithinLimit i k limit rows a = elim (Bool-cases (any (matches k) rows)) [
  | inl e ↦ rw e a
  | inr e ↦ rw e (All-append WithinLimit rows _ a (omega arith, tt))
]

call-WithinLimit :
    (m : Call) (rows rows' : Rows)
    → All WithinLimit rows
    → call m rows ≡ ok rows'
    → All WithinLimit rows'
unfolding call
call-WithinLimit (provision i k limit) rows rows' a h =
    subst (All WithinLimit) (ok_inj _ rows' h) (ensure_period-WithinLimit i k limit rows a)
call-WithinLimit (hold k n) rows rows' a h =
    subst (All WithinLimit) (ok_inj _ rows' h)
      (All-update_where k (has_room n) _ rows (λ r w e. ground arith) a)
call-WithinLimit (spend k n) rows rows' a h =
    subst (All WithinLimit) (ok_inj _ rows' h) (All-update_where k _ _ rows (λ r w e. w) a)
call-WithinLimit (free k n) rows rows' a h =
    let (u, p, q) = >>=-eq_ok (guard (covers k n rows) _) _ rows' h in
    subst (All WithinLimit) (ok_inj _ rows' q)
      (All-update_where k _ _ rows (λ r w e. omega arith) a)

-- Along any sequence of calls by any tenants no budget is oversold: every row's reserved amount
-- stays within its limit if it was so at the start.
pub history-WithinLimit :
    (rows : Rows) (ms : List Call) → All WithinLimit rows → All WithinLimit (history call rows ms)
history-WithinLimit rows ms a = history_inv call (All WithinLimit) call-WithinLimit rows ms a
