-- ===== src/Services/GenerationRequestRollup/Totals.antt =====
-- About the counts of a rollup and its status.
use softbox_ai.Prelude.{
  ℕ, suc, ◌+◌, ◌≡◌, ◌≢◌, ◌⊎◌, inl, inr, Option, none, some, List, [], ◌∷◌, Bool, true, false,
  length, count, In, Bool-cases, arith, refl, ◌==◌,
}
use softbox_ai.Ids.{Uuid}
use softbox_ai.Entities.GenerationItem.{GenerationItem}
use softbox_ai.Entities.GenerationRequest.{
  GenerationRequestStatus, succeeded, failed, partially_failed,
}
use softbox_ai.Services.GenerationRequestRollup.{
  RequestRollup, SlotVerdict, slot_succeeded, slot_failed, in_flight, slot_verdict, by_slot,
  not_ready, settled_status, roll, compute_rollup,
}

abbrev pub verdict_at : List GenerationItem → Uuid → SlotVerdict
verdict_at items slot = slot_verdict (by_slot items slot)

abbrev is_slot_succeeded : SlotVerdict → Bool
is_slot_succeeded slot_succeeded = true
is_slot_succeeded _ = false

abbrev is_slot_failed : SlotVerdict → Bool
is_slot_failed slot_failed = true
is_slot_failed _ = false

abbrev pub successes : List GenerationItem → List Uuid → ℕ
successes items slots = count (λ slot. is_slot_succeeded (verdict_at items slot)) slots

abbrev pub failures : List GenerationItem → List Uuid → ℕ
failures items slots = count (λ slot. is_slot_failed (verdict_at items slot)) slots

-- The terminal status that a number of successes and of failures calls for.
abbrev pub Fits : GenerationRequestStatus → ℕ → ℕ → Type 0
Fits succeeded s f = f ≡ 0
Fits failed s f = (s ≡ 0) × (f ≢ 0)
Fits partially_failed s f = (s ≢ 0) × (f ≢ 0)
Fits _ s f = ⊥

abbrev Settles :
    ℕ
    → ℕ
    → List Uuid
    → List GenerationItem
    → RequestRollup
    → Option GenerationRequestStatus
    → Type 0
Settles s f slots items r none =
    (r.succeeded_slot_count ≡ 0)
    × (r.failed_slot_count ≡ 0)
    × (slot : Uuid) × In slot slots
    × (verdict_at items slot ≡ in_flight)
Settles s f slots items r (some st) =
    (r.succeeded_slot_count ≡ s + successes items slots)
    × (r.failed_slot_count ≡ f + failures items slots)
    × (successes items slots + failures items slots ≡ length slots)
    × Fits st r.succeeded_slot_count r.failed_slot_count

settled_status-Fits : (s f : ℕ) → Fits (settled_status s f) s f
settled_status-Fits s f = elim (Bool-cases (f == 0)) [
  | inl e ↦ rw e (ground arith)
  | inr e ↦ rw e (elim (Bool-cases (s == 0)) [
    | inl d ↦ rw d (ground arith, ground arith)
    | inr d ↦ rw d (ground arith, ground arith)
  ])
]

-- One round of the loop, by the verdict on the slot.
round : List GenerationItem → List Uuid → ℕ → ℕ → SlotVerdict → RequestRollup
round items slots s f slot_succeeded = roll items slots (s + 1) f
round items slots s f slot_failed = roll items slots s (f + 1)
round items slots s f in_flight = not_ready

roll-cons :
    (items : List GenerationItem) (slot : Uuid) (slots : List Uuid) (s f : ℕ)
    → roll items (slot ∷ slots) s f ≡ round items slots s f (verdict_at items slot)
unfolding roll round
roll-cons items slot slots s f = go (verdict_at items slot)
  where
    go :
        (v : SlotVerdict)
        → elim v [
          | slot_succeeded ↦ roll items slots (s + 1) f
          | slot_failed ↦ roll items slots s (f + 1)
          | in_flight ↦ not_ready
        ]
          ≡ round items slots s f v
    go slot_succeeded = refl
    go slot_failed = refl
    go in_flight = refl

-- The counters of the rest of the loop count from one more.
later :
    (s f : ℕ) (slot : Uuid) (slots : List Uuid) (items : List GenerationItem) (r : RequestRollup)
    (o : Option GenerationRequestStatus) (s' f' : ℕ)
    → (s' + successes items slots ≡ s + successes items (slot ∷ slots))
    → (f' + failures items slots ≡ f + failures items (slot ∷ slots))
    → (successes items (slot ∷ slots) + failures items (slot ∷ slots)
        ≡ suc (successes items slots + failures items slots))
    → Settles s' f' slots items r o
    → Settles s f (slot ∷ slots) items r o
later s f slot slots items r none s' f' p q u (a, b, w, found, e) = (a, b, w, inr found, e)
later s f slot slots items r (some st) s' f' p q u (a, b, c, d) =
    (omega arith, omega arith, omega arith, d)

roll-nil :
    (items : List GenerationItem) (s f : ℕ)
    → roll items [] s f ≡ record {
      status = some (settled_status s f);
      succeeded_slot_count = s;
      failed_slot_count = f;
    }
unfolding roll
roll-nil items s f = refl

roll_lem :
    (items : List GenerationItem) (slots : List Uuid) (s f : ℕ)
    → Settles s f slots items (roll items slots s f) (roll items slots s f).status
unfolding round
roll_lem items [] s f = rw roll-nil (omega arith, omega arith, refl, settled_status-Fits s f)
roll_lem items (slot ∷ slots) s f =
    rw roll-cons (go (verdict_at items slot) refl (roll_lem items slots))
  where
    go :
        (v : SlotVerdict)
        → verdict_at items slot ≡ v
        → ((s f : ℕ) → Settles s f slots items (roll items slots s f) (roll items slots s f).status)
        → Settles s f
            (slot ∷ slots)
            items
            (round items slots s f v)
            (round items slots s f v).status
    go slot_succeeded e ih =
        later s f slot slots items (roll items slots (s + 1) f) (roll items slots (s + 1) f).status
          (s + 1) f (rw e (omega arith)) (rw e (omega arith)) (rw e (omega arith)) (ih (s + 1) f)
    go slot_failed e ih =
        later s f slot slots items (roll items slots s (f + 1)) (roll items slots s (f + 1)).status
          s (f + 1) (rw e (omega arith)) (rw e (omega arith)) (rw e (omega arith)) (ih s (f + 1))
    go in_flight e ih = (refl, refl, slot, inl refl, e)

-- What a whole rollup promises, by the status that it gives.
abbrev pub Rollup :
    List Uuid → List GenerationItem → RequestRollup → Option GenerationRequestStatus → Type 0
Rollup slots items r none =
    (r.succeeded_slot_count ≡ 0)
    × (r.failed_slot_count ≡ 0)
    × ((slots ≡ []) ⊎ ((slot : Uuid) × In slot slots × (verdict_at items slot ≡ in_flight)))
Rollup slots items r (some st) =
    (r.succeeded_slot_count ≡ successes items slots)
    × (r.failed_slot_count ≡ failures items slots)
    × (r.succeeded_slot_count + r.failed_slot_count ≡ length slots)
    × Fits st r.succeeded_slot_count r.failed_slot_count

Settles-Rollup :
    (slots : List Uuid) (items : List GenerationItem) (r : RequestRollup)
    (o : Option GenerationRequestStatus)
    → Settles 0 0 slots items r o
    → Rollup slots items r o
Settles-Rollup slots items r none (a, b, w, found, e) = (a, b, inr (w, found, e))
Settles-Rollup slots items r (some st) (a, b, c, d) = (omega arith, omega arith, omega arith, d)

-- A rollup is withheld, with both counts zero, only when there is no required slot or some required
-- slot is still in flight. A rollup that settles counts every required slot once, as succeeded or
-- as failed; it is `succeeded` when none failed, `failed` when all did and `partially_failed` when
-- there are both, and never any other status.
pub compute_rollup_lem :
    (slots : List Uuid) (items : List GenerationItem)
    → Rollup slots items (compute_rollup slots items) (compute_rollup slots items).status
unfolding compute_rollup
compute_rollup_lem [] items = (refl, refl, inl refl)
compute_rollup_lem (slot ∷ slots) items =
    Settles-Rollup (slot ∷ slots) items (roll items (slot ∷ slots) 0 0) _
      (roll_lem items (slot ∷ slots) 0 0)
