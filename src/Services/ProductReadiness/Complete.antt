-- ===== src/Services/ProductReadiness/Complete.antt =====
-- About when a product is ready.
use softbox_ai.Prelude.{
  ◌≡◌, ◌↔◌, refl, inl, inr, Option, List, [], ◌∷◌, ◌++◌, true, false, not, ◌||◌, String, All,
  Bool-cases, arith,
}
use softbox_ai.Ids.{Uuid}
use softbox_ai.Json.{JsonDict, value_at}
use softbox_ai.Entities.ProductInputImage.{ProductInputImage}
use softbox_ai.Entities.SpecSnapshot.{SpecSnapshot, AttributeRow, InputSlotRow}
use softbox_ai.Services.InputImageResolution.{resolve_input_image}
use softbox_ai.Services.ProductReadiness.{
  is_blank, is_usable, is_empty, missing_attributes, missing_inputs, compute_product_readiness,
}

abbrev pub HasAttribute : JsonDict → AttributeRow → Type 0
HasAttribute attributes d = d.is_required ≡ true → is_blank (value_at d.key attributes) ≡ false

abbrev pub HasInput : List ProductInputImage → Option Uuid → InputSlotRow → Type 0
HasInput images variant slot =
    slot.is_required ≡ true → is_usable (resolve_input_image images variant slot.id) ≡ true

missing_attributes_lem :
    (attributes : JsonDict) (ds : List AttributeRow)
    → (missing_attributes attributes ds ≡ []) ↔ All (HasAttribute attributes) ds
unfolding missing_attributes
missing_attributes_lem attributes [] = ((λ _. tt), (λ _. refl))
missing_attributes_lem attributes (d ∷ ds) =
    let ih = missing_attributes_lem attributes ds in
    elim (Bool-cases (not d.is_required || not (is_blank (value_at d.key attributes)))) [
      | inl e ↦ ((λ h. ((λ r. ground (arith, e, r)), ih.0 (rw e at h))), (λ a. rw e (ih.1 a.1)))
      | inr e ↦ ((λ h. absurd (ground (arith, rw e at h))), (λ a. absurd (ground (arith, e, a.0))))
    ]

missing_inputs_lem :
    (images : List ProductInputImage) (variant : Option Uuid) (slots : List InputSlotRow)
    → (missing_inputs images variant slots ≡ []) ↔ All (HasInput images variant) slots
unfolding missing_inputs
missing_inputs_lem images variant [] = ((λ _. tt), (λ _. refl))
missing_inputs_lem images variant (slot ∷ slots) =
    let ih = missing_inputs_lem images variant slots in
    elim (Bool-cases
      (not slot.is_required || is_usable (resolve_input_image images variant slot.id))) [
        | inl e ↦ ((λ h. ((λ r. ground (arith, e, r)), ih.0 (rw e at h))), (λ a. rw e (ih.1 a.1)))
        | inr e ↦
            ((λ h. absurd (ground (arith, rw e at h))), (λ a. absurd (ground (arith, e, a.0))))
      ]

is_empty-append : (xs ys : List String) → (is_empty (xs ++ ys) ≡ true) ↔ ((xs ≡ []) × (ys ≡ []))
is_empty-append [] [] = ((λ _. (refl, refl)), (λ _. refl))
is_empty-append [] (y ∷ ys) = ((λ h. cc), (λ h. cc))
is_empty-append (x ∷ xs) ys = ((λ h. cc), (λ h. cc))

-- A product is ready for a variant exactly when every required attribute of the spec has a value that
-- is neither null nor the empty text, and every required input slot resolves to an image whose
-- status is ready.
pub compute_product_readiness_lem :
    (s : SpecSnapshot) (attributes : JsonDict) (images : List ProductInputImage)
    (variant : Option Uuid)
    → ((compute_product_readiness s attributes images variant).is_ready ≡ true) ↔ (
        All (HasAttribute attributes) s.attribute_definitions
        × All (HasInput images variant) s.input_image_slots)
unfolding compute_product_readiness
compute_product_readiness_lem s attributes images variant =
    let p = missing_attributes_lem attributes s.attribute_definitions in
    let q = missing_inputs_lem images variant s.input_image_slots in
    let r =
      is_empty-append (missing_attributes attributes s.attribute_definitions)
        (missing_inputs images variant s.input_image_slots) in
    ((λ h. let (a, b) = r.0 h in (p.0 a, q.0 b)), (λ h. r.1 (p.1 h.0, q.1 h.1)))
