-- ===== src/Services/GenerationRequestRollup.antt =====
-- src/app/services/generation_request_rollup.py: when a running request settles, and how.
pub mod Verdicts
pub mod Totals
use softbox_ai.Prelude.{
  ℕ, ◌+◌, Option, none, some, List, [], ◌∷◌, Bool, true, false, ◌==◌, any, filter, max_by,
  if◌then◌else◌,
}
use softbox_ai.Ids.{Uuid}
use softbox_ai.Entities.GenerationItem.{GenerationItem, is_succeeded, is_dead}
use softbox_ai.Entities.GenerationRequest.{
  GenerationRequestStatus, succeeded, failed, partially_failed,
}

pub record RequestRollup : Type 0 where
  pub status : Option GenerationRequestStatus
  pub succeeded_slot_count : ℕ
  pub failed_slot_count : ℕ

-- What the loop body does with one slot: counts it on one side, or returns from the function.
pub data SlotVerdict : Type 0 where
  slot_succeeded slot_failed in_flight : SlotVerdict

abbrev pub latest_verdict : Option GenerationItem → SlotVerdict
latest_verdict none = slot_failed
latest_verdict (some latest) = if is_dead latest.status then slot_failed else in_flight

unfoldable pub slot_verdict : List GenerationItem → SlotVerdict
slot_verdict slot_items =
    if any (λ i. is_succeeded i.status) slot_items
    then slot_succeeded
    else latest_verdict (max_by (λ i. i.attempt_no) slot_items)

-- `by_slot.get(slot_id, [])`.
abbrev pub by_slot : List GenerationItem → Uuid → List GenerationItem
by_slot items slot = filter (λ i. i.catalog_image_slot_id == slot) items

abbrev pub not_ready : RequestRollup
not_ready = record { status = none; succeeded_slot_count = 0; failed_slot_count = 0 }

-- After the loop.
abbrev pub settled_status : ℕ → ℕ → GenerationRequestStatus
settled_status succeeded_count failed_count =
    if failed_count == 0
    then succeeded
    else if succeeded_count == 0
    then failed
    else partially_failed

-- The loop, over its two counters.
unfoldable pub roll : List GenerationItem → List Uuid → ℕ → ℕ → RequestRollup
unfolding slot_verdict
roll items [] s f = record {
  status = some (settled_status s f);
  succeeded_slot_count = s;
  failed_slot_count = f;
}
roll items (slot ∷ slots) s f = elim (slot_verdict (by_slot items slot)) [
  | slot_succeeded ↦ roll items slots (s + 1) f
  | slot_failed ↦ roll items slots s (f + 1)
  | in_flight ↦ not_ready
]

unfoldable pub compute_rollup : List Uuid → List GenerationItem → RequestRollup
compute_rollup [] items = not_ready
compute_rollup (slot ∷ slots) items = roll items (slot ∷ slots) 0 0
