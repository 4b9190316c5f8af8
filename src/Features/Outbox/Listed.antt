-- ===== src/Features/Outbox/Listed.antt =====
-- About the events that a relay lists.
use softbox_ai.Prelude.{
  ℕ, zero, suc, ◌+◌, ◌-◌, none, List, [], ◌∷◌, Bool, true, ◌≡◌, ◌∙◌, refl, ap, inl, inr, All,
  All-of_In, All-take, All-sort_by, In, In-filter, filter, take, place, sort_by, leb, count, length,
  Bool-cases, arith,
}
use softbox_ai.Ids.{Uuid, Instant}
use softbox_ai.Table.Laws.{Distinct}
use softbox_ai.Table.Sorting.{Distinct-filter, Distinct-take, Distinct-sort_by}
use softbox_ai.TaskQueue.Store
use softbox_ai.TaskQueue.Store.{TaskQueueJob, Jobs, enqueue, default_max_attempts}
use softbox_ai.UnitOfWork.{OutboxEvent, event_row}
use softbox_ai.Features.Outbox.{is_unpublished, list_unpublished}

-- The job of an event, pending and due at once.
abbrev pub job_for : Uuid → Instant → (Uuid → Uuid) → OutboxEvent → TaskQueueJob
job_for t now new_id e = record {
  id = new_id e.id;
  tenant_id = t;
  job_type = e.event_type;
  payload = e.payload;
  status = Store.pending;
  attempts = 0;
  max_attempts = default_max_attempts;
  run_at = now;
  claimed_at = none;
  claimed_by = none;
  last_error = none;
  created_at = now;
  updated_at = now;
}

module _ {A : Type 0} where
  length-place : (size : A → ℕ) (x : A) (xs : List A) → length (place size x xs) ≡ suc (length xs)
  length-place size x [] = refl
  length-place size x (y ∷ xs) = elim (Bool-cases (leb (size x) (size y))) [
    | inl e ↦ rw e refl
    | inr e ↦ rw e (ap suc (length-place size x xs))
  ]

  length-sort_by : (size : A → ℕ) (xs : List A) → length (sort_by size xs) ≡ length xs
  length-sort_by size [] = refl
  length-sort_by size (x ∷ xs) =
      length-place size x (sort_by size xs) ∙ ap suc (length-sort_by size xs)

  length-filter : (f : A → Bool) (xs : List A) → length (filter f xs) ≡ count f xs
  length-filter f [] = refl
  length-filter f (x ∷ xs) = elim (Bool-cases (f x)) [
    | inl e ↦ rw e (omega (arith, length-filter f xs))
    | inr e ↦ rw e (omega (arith, length-filter f xs))
  ]

  length-take : (n : ℕ) (xs : List A) → length (take n xs) + (length xs - n) ≡ length xs
  length-take zero xs = omega arith
  length-take (suc n) [] = omega arith
  length-take (suc n) (x ∷ xs) = omega (arith, length-take n xs)

-- Every row of the list is a row of the table that waits to be published.
abbrev pub IsWaiting : Uuid → List OutboxEvent → OutboxEvent → Type 0
IsWaiting t rows e = In e rows × (is_unpublished t e ≡ true)

pub list_unpublished-IsWaiting :
    (t : Uuid) (limit : ℕ) (rows : List OutboxEvent)
    → All (IsWaiting t rows) (list_unpublished t limit rows)
unfolding list_unpublished
list_unpublished-IsWaiting t limit rows = All-take (IsWaiting t rows) limit _ (
    All-sort_by (IsWaiting t rows) (λ e. e.created_at) (filter (is_unpublished t) rows)
      (All-of_In (IsWaiting t rows) _ (λ e i. In-filter (is_unpublished t) e rows i)))

pub list_unpublished-Distinct :
    (t : Uuid) (limit : ℕ) (rows : List OutboxEvent)
    → Distinct rows
    → Distinct (list_unpublished t limit rows)
unfolding list_unpublished
list_unpublished-Distinct t limit rows d = Distinct-take limit _ (
    Distinct-sort_by (λ e. e.created_at) (filter (is_unpublished t) rows)
      (Distinct-filter (is_unpublished t) rows d))

pub length-list_unpublished :
    (t : Uuid) (limit : ℕ) (rows : List OutboxEvent)
    → length (list_unpublished t limit rows) + (count (is_unpublished t) rows - limit)
      ≡ count (is_unpublished t) rows
unfolding list_unpublished
length-list_unpublished t limit rows = omega (
  arith,
  length-take limit (sort_by (λ (e : OutboxEvent). e.created_at) (filter (is_unpublished t) rows)),
  length-sort_by (λ (e : OutboxEvent). e.created_at) (filter (is_unpublished t) rows),
  length-filter (is_unpublished t) rows,
)
