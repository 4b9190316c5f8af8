-- ===== src/Features/Products/FanOutGenerationItems/Planned.antt =====
-- The plan of a fan-out, made ahead of any write.
use softbox_ai.Prelude.{
  String, List, [], ◌∷◌, Bool, true, ◌==◌, ◌&&◌, ◌≡◌, ◌∙◌, refl, sym, ap, subst, inl, inr, map,
  filter, In-filter, All, All-sort_by, All-of_In, All-find, length, count, Bool-cases,
  if◌then◌else◌, arith,
}
use softbox_ai.Errors.{Result, ok, err, ok_inj, require-eq_ok, ◌>>=◌}
use softbox_ai.Json.{empty}
use softbox_ai.Ids.{Uuid}
use softbox_ai.Entities.GenerationItem
use softbox_ai.Entities.GenerationItem.{GenerationItem}
use softbox_ai.Entities.CatalogTemplate.{CatalogTemplate, is_analysed}
use softbox_ai.Entities.SpecSnapshot.{CatalogSlotRow}
use softbox_ai.Services.PromptComposition.{compose_prompt, composition_version}
use softbox_ai.UnitOfWork.{item_row, request_row, product_row, variant_row, spec_version_row}
use softbox_ai.Features.Generation.CompleteCatalogImageQc.{list_for_catalog_slot}
use softbox_ai.Features.Generation.CompleteCatalogImageQc.RetryPrompt.{prompt_template_of}
use softbox_ai.Features.Products.FanOutGenerationItems.Plan.{
  FanOut, pick_default_template, resolve_required_inputs, plan_slot,
}

-- The attempts of the required slots, or the first failure.
abbrev pub consed : GenerationItem → Result (List GenerationItem) → Result (List GenerationItem)
consed item (ok items) = ok (item ∷ items)
consed item (err e) = err e

abbrev pub and_then :
    Result GenerationItem → Result (List GenerationItem) → Result (List GenerationItem)
and_then (ok item) rest = consed item rest
and_then (err e) rest = err e

abbrev pub plan_all :
    FanOut → List CatalogTemplate → List CatalogSlotRow → Result (List GenerationItem)
plan_all f templates [] = ok []
plan_all f templates (slot ∷ slots) =
    let rest = plan_all f templates slots in
    if slot.is_required then and_then (plan_slot f templates slot) rest else rest

-- A pending first attempt of the request.
abbrev pub IsFirst : Uuid → GenerationItem → Type 0
IsFirst request i =
    (i.request_id ≡ request) × (i.attempt_no ≡ 1) × (i.status ≡ GenerationItem.pending)

pub pick_default_template-slot :
    (t slot_id : Uuid) (templates : List CatalogTemplate) (x : CatalogTemplate)
    → pick_default_template t slot_id templates ≡ ok x
    → x.catalog_image_slot_id ≡ slot_id
unfolding pick_default_template
pick_default_template-slot t slot_id templates x h =
    let e = require-eq_ok _ _ x h in
    let P = λ (z : CatalogTemplate). z.catalog_image_slot_id ≡ slot_id in
    All-find P (λ z. z.is_default && is_analysed z.status)
      (list_for_catalog_slot t slot_id templates) x
      (All-sort_by P (λ (z : CatalogTemplate). z.position) _
        (All-of_In P _ (λ z i. ground (
          arith,
          (In-filter (λ z. z.tenant_id == t && z.catalog_image_slot_id == slot_id) z templates i).1,
        ))))
      e

-- A plan that returns has a template that was picked.
pub made_of :
    (rt : Result CatalogTemplate) (ri : Result (List Uuid)) (rp : CatalogTemplate → Result String)
    (make : CatalogTemplate → List Uuid → String → GenerationItem) (i : GenerationItem)
    → (rt >>= λ t. ri >>= λ ids. rp t >>= λ p. ok (make t ids p)) ≡ ok i
    → (t : CatalogTemplate) × (ids : List Uuid) × (p : String) × (rt ≡ ok t) × (make t ids p ≡ i)
made_of (ok t) (ok ids) rp make i h = go (rp t) h
  where
    go :
        (r : Result String)
        → (r >>= λ p. ok (make t ids p)) ≡ ok i
        → (t' : CatalogTemplate) × (ids : List Uuid) × (p : String) × (ok t ≡ ok t')
          × (make t' ids p ≡ i)
    go (ok p) e = (t, ids, p, refl, ok_inj _ _ e)
    go (err e) q = cc
made_of (ok t) (err e) rp make i h = cc
made_of (err e) ri rp make i h = cc

pub plan_slot_lem :
    (f : FanOut) (templates : List CatalogTemplate) (slot : CatalogSlotRow) (i : GenerationItem)
    → plan_slot f templates slot ≡ ok i
    → (i.catalog_image_slot_id ≡ slot.id) × IsFirst f.request_id i
unfolding plan_slot GenerationItem.create
plan_slot_lem f templates slot i h =
    let (template, inputs, prompt, picked, made) =
      made_of (pick_default_template f.tenant_id slot.id templates)
        (resolve_required_inputs f.ready_images f.variant_id slot.input_requirements)
        (λ template.
          compose_prompt f.py f.snapshot slot.id (prompt_template_of template.prompt_template)
            f.attributes f.axis_values)
        (λ template inputs prompt.
          GenerationItem.create (f.draws slot.id).new_item_id f.tenant_id f.request_id
            template.catalog_image_slot_id template.id 1 f.provider f.model empty
            (f.draws slot.id).seed prompt composition_version inputs f.now)
        i h in
    (
      ap (λ (x : GenerationItem). x.catalog_image_slot_id) (sym made)
          ∙ pick_default_template-slot f.tenant_id slot.id templates template picked,
      (
        ap (λ (x : GenerationItem). x.request_id) (sym made),
        ap (λ (x : GenerationItem). x.attempt_no) (sym made),
        ap (λ (x : GenerationItem). x.status) (sym made),
      ),
    )

abbrev pub slot_ids : List CatalogSlotRow → List Uuid
slot_ids slots = map (λ slot. slot.id) (filter (λ slot. slot.is_required) slots)

-- What a plan has: one first attempt for each required slot, in the order of the slots.
abbrev pub IsPlan : Uuid → List CatalogSlotRow → List GenerationItem → Type 0
IsPlan request slots items =
    (map (λ i. i.catalog_image_slot_id) items ≡ slot_ids slots)
    × All (IsFirst request) items
    × (length items ≡ count (λ slot. slot.is_required) slots)

pub IsPlan-cons :
    (request : Uuid) (slot : CatalogSlotRow) (slots : List CatalogSlotRow) (i : GenerationItem)
    (more : List GenerationItem)
    → slot.is_required ≡ true
    → i.catalog_image_slot_id ≡ slot.id
    → IsFirst request i
    → IsPlan request slots more
    → IsPlan request (slot ∷ slots) (i ∷ more)
IsPlan-cons request slot slots i more e id first (p, a, n) =
    let ids =
      ap (λ x. x ∷ map (λ (j : GenerationItem). j.catalog_image_slot_id) more) id
      ∙ ap (λ l. slot.id ∷ l) p in
    rw e (ids, (first, a), omega (arith, n))

abbrev pub planned :
    FanOut
    → List CatalogTemplate
    → CatalogSlotRow
    → List CatalogSlotRow
    → Bool
    → Result (List GenerationItem)
planned f templates slot slots b =
    let rest = plan_all f templates slots in
    if b then and_then (plan_slot f templates slot) rest else rest

pub and_then-ok :
    (r : Result GenerationItem) (rest : Result (List GenerationItem)) (items : List GenerationItem)
    → and_then r rest ≡ ok items
    → (i : GenerationItem) × (more : List GenerationItem) × (r ≡ ok i)
      × (rest ≡ ok more)
      × (items ≡ i ∷ more)
and_then-ok (ok i) (ok more) items h = (i, more, refl, refl, sym (ok_inj _ _ h))
and_then-ok (ok i) (err e) items h = cc
and_then-ok (err e) rest items h = cc

pub plan_all-IsPlan :
    (f : FanOut) (templates : List CatalogTemplate) (slots : List CatalogSlotRow)
    (items : List GenerationItem)
    → plan_all f templates slots ≡ ok items
    → IsPlan f.request_id slots items
plan_all-IsPlan f templates [] items h =
    subst (IsPlan f.request_id []) (ok_inj _ _ h) (refl, tt, refl)
plan_all-IsPlan f templates (slot ∷ slots) items h = elim (Bool-cases slot.is_required) [
  | inr e ↦
      let (p, a, n) =
        plan_all-IsPlan f templates slots items (sym (ap (planned f templates slot slots) e) ∙ h) in
      rw e (p, a, omega (arith, n))
  | inl e ↦
      let (i, more, made, rest, split) =
        and_then-ok (plan_slot f templates slot) (plan_all f templates slots) items
          (sym (ap (planned f templates slot slots) e) ∙ h) in
      let (id, first) = plan_slot_lem f templates slot i made in
      subst (IsPlan f.request_id (slot ∷ slots)) (sym split) (
        IsPlan-cons f.request_id slot slots i more e id first
          (plan_all-IsPlan f templates slots more rest))
]
