-- ===== src/Services/GenerationRequestRollup/Verdicts.antt =====
-- About the verdict on one slot.
use softbox_ai.Prelude.{
  ◌≤◌, ◌≡◌, ◌⊎◌, inl, inr, Option, none, some, List, [], ◌∷◌, Bool, true, false, any, All, In,
  max_by, In-max_by, max_by-ge, max_by-none, Bool-cases, refl, if◌then◌else◌,
}
use softbox_ai.Entities.GenerationItem.{GenerationItem, is_succeeded, is_dead}
use softbox_ai.Services.GenerationRequestRollup.{
  SlotVerdict, slot_succeeded, slot_failed, in_flight, latest_verdict, slot_verdict,
}

-- No attempt succeeded.
abbrev pub NoneSucceeded : List GenerationItem → Type 0
NoneSucceeded items = All (λ i. is_succeeded i.status ≡ false) items

-- An attempt that none outnumbers.
abbrev pub IsLatest : GenerationItem → List GenerationItem → Type 0
IsLatest l items = In l items × All (λ i. i.attempt_no ≤ l.attempt_no) items

-- Succeeded: some attempt did, whichever. Failed: none did, and there was none or the latest is
-- dead. In flight: none did, and the latest is not dead.
abbrev pub Means : SlotVerdict → List GenerationItem → Type 0
Means slot_succeeded items = (i : GenerationItem) × In i items × (is_succeeded i.status ≡ true)
Means slot_failed items =
    NoneSucceeded items
    × ((items ≡ []) ⊎ ((l : GenerationItem) × IsLatest l items × (is_dead l.status ≡ true)))
Means in_flight items =
    NoneSucceeded items × ((l : GenerationItem) × IsLatest l items × (is_dead l.status ≡ false))

In-any :
    (items : List GenerationItem)
    → any (λ i. is_succeeded i.status) items ≡ true
    → (i : GenerationItem) × In i items × (is_succeeded i.status ≡ true)
In-any [] h = cc
In-any (x ∷ items) h = elim (Bool-cases (is_succeeded x.status)) [
  | inl e ↦ (x, inl refl, e)
  | inr e ↦ let (i, p, q) = In-any items (rw e at h) in (i, inr p, q)
]

any-false :
    (items : List GenerationItem)
    → any (λ i. is_succeeded i.status) items ≡ false
    → NoneSucceeded items
any-false [] h = tt
any-false (x ∷ items) h = elim (Bool-cases (is_succeeded x.status)) [
  | inl e ↦ cc (rw e at h)
  | inr e ↦ (e, any-false items (rw e at h))
]

latest-Means :
    (items : List GenerationItem) (o : Option GenerationItem)
    → NoneSucceeded items
    → max_by (λ i. i.attempt_no) items ≡ o
    → Means (latest_verdict o) items
latest-Means items none n e = (n, inl (max_by-none _ items e))
latest-Means items (some l) n e = dead (is_dead l.status) refl
  where
    latest : IsLatest l items
    latest = (In-max_by _ items l e, max_by-ge _ items l e)

    dead : (b : Bool) → is_dead l.status ≡ b → Means (if b then slot_failed else in_flight) items
    dead true d = (n, inr (l, latest, d))
    dead false d = (n, (l, latest, d))

-- The verdict on a slot says what happened to its attempts: a success is never hidden by a later
-- attempt, and a failure is final only when the latest attempt is dead or there never was one.
pub slot_verdict_lem : (items : List GenerationItem) → Means (slot_verdict items) items
unfolding slot_verdict
slot_verdict_lem items = go (any (λ i. is_succeeded i.status) items) refl
  where
    go :
        (b : Bool)
        → any (λ i. is_succeeded i.status) items ≡ b
        → Means
            (if b then slot_succeeded else latest_verdict (max_by (λ i. i.attempt_no) items))
            items
    go true e = In-any items e
    go false e = latest-Means items _ (any-false items e) refl
