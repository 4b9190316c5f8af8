-- ===== src/Services/TemplatePlaceholderValidator/Composes.antt =====
-- About the validator of template_placeholder_validator.py and the composer of prompt_composition.py
-- together.
use softbox_ai.Prelude.{
  ◌≡◌, refl, inl, inr, String, List, [], ◌∷◌, ◌++◌, Bool, true, false, not, ◌&&◌, ◌||◌, any, All,
  Bool-cases, str_eq, arith, str_eq_iff, ap, sym, ◌∙◌, Option-cases, ◌<+>◌, if◌then◌else◌, is_none,
}
use softbox_ai.Errors.{ok}
use softbox_ai.Ids.{Uuid}
use softbox_ai.Json.{JsonDict, value_at}
use softbox_ai.Entities.SpecSnapshot.{
  SpecSnapshot, CatalogSlotRow, AttributeRow, AxisRow, find_catalog_slot,
}
use softbox_ai.Services.PromptComposition.{
  Segment, plain, malformed, placeholder, Texts, Axes, axis_value, replacement, substitute_all,
  compose_prompt, with_lines, render_role_lines,
}
use softbox_ai.Services.TemplatePlaceholderValidator.{
  is_attribute, is_axis, is_required_input, placeholder_problem, problems,
  validate_template_placeholders,
}

-- The tests of a placeholder that has no problem, on their outcomes.
attribute_outcome :
    (i a v ri ra rv : Bool) (p q r t : String)
    → (if not (i || (a || v))
        then p ∷ []
        else if i && not ri
        then q ∷ []
        else if a && not ra
        then r ∷ []
        else if v && not rv
        then t ∷ []
        else [])
      ≡ []
    → a ≡ true
    → ra ≡ true
attribute_outcome i false v ri ra rv p q r t h e = cc
attribute_outcome i true v ri true rv p q r t h e = refl
attribute_outcome true true v true false rv p q r t h e = cc
attribute_outcome true true v false false rv p q r t h e = cc
attribute_outcome false true v ri false rv p q r t h e = cc

axis_outcome :
    (i a v ri ra rv : Bool) (p q r t : String)
    → (if not (i || (a || v))
        then p ∷ []
        else if i && not ri
        then q ∷ []
        else if a && not ra
        then r ∷ []
        else if v && not rv
        then t ∷ []
        else [])
      ≡ []
    → v ≡ true
    → rv ≡ true
axis_outcome i a false ri ra rv p q r t h e = cc
axis_outcome i a true ri ra true p q r t h e = refl
axis_outcome i a true ri ra false p q r t h e = ground (arith, h, e)

is_attribute-problem :
    (s : SpecSnapshot) (slot : CatalogSlotRow) (namespace key : String)
    → placeholder_problem s slot namespace key ≡ []
    → str_eq namespace "attr" ≡ true
    → is_attribute s key ≡ true
unfolding placeholder_problem
is_attribute-problem s slot namespace key h e =
    attribute_outcome (str_eq namespace "input") (str_eq namespace "attr")
      (str_eq namespace "variant") (is_required_input s.input_image_slots slot key)
      (is_attribute s key) (is_axis s key) _ _ _ _ h e

is_axis-problem :
    (s : SpecSnapshot) (slot : CatalogSlotRow) (namespace key : String)
    → placeholder_problem s slot namespace key ≡ []
    → str_eq namespace "variant" ≡ true
    → is_axis s key ≡ true
unfolding placeholder_problem
is_axis-problem s slot namespace key h e =
    axis_outcome (str_eq namespace "input") (str_eq namespace "attr") (str_eq namespace "variant")
      (is_required_input s.input_image_slots slot key) (is_attribute s key) (is_axis s key) _ _ _ _
      h e

abbrev pub FillsAttribute : JsonDict → AttributeRow → Type 0
FillsAttribute attributes d = is_none (value_at d.key attributes) ≡ false

abbrev pub FillsAxis : Axes → AxisRow → Type 0
FillsAxis axes a = is_none (axis_value a.key axes) ≡ false

-- A key that one of the rows has, where all rows have a value.
fills_key :
    {A : Type 0} (key_of : A → String) (missing : String → Bool) (key : String) (rows : List A)
    → any (λ r. str_eq (key_of r) key) rows ≡ true
    → All (λ r. missing (key_of r) ≡ false) rows
    → missing key ≡ false
fills_key key_of missing key [] h f = cc
fills_key key_of missing key (r ∷ rows) h f = elim (Bool-cases (str_eq (key_of r) key)) [
  | inl e ↦ ap missing (sym ((str_eq_iff (key_of r) key).0 e)) ∙ f.0
  | inr e ↦ fills_key key_of missing key rows (sym (rw e refl) ∙ h) f.1
]

replacement-ok :
    (py : Texts) (s : SpecSnapshot) (slot : CatalogSlotRow) (attributes : JsonDict) (axes : Axes)
    (m namespace key : String)
    → placeholder_problem s slot namespace key ≡ []
    → All (FillsAttribute attributes) s.attribute_definitions
    → All (FillsAxis axes) s.variant_axes
    → (text : String) × (replacement py attributes axes (placeholder m namespace key) ≡ ok text)
unfolding replacement
replacement-ok py s slot attributes axes m namespace key h f g =
    elim (Bool-cases (str_eq namespace "attr")) [
      | inl e ↦
          let found =
            fills_key (λ (d : AttributeRow). d.key) (λ k. is_none (value_at k attributes)) key
              s.attribute_definitions (is_attribute-problem s slot namespace key h e) f in
          elim (Option-cases (value_at key attributes)) [
            | inl n ↦ cc
            | inr (v, n) ↦ (py.str v, rw (e, n) refl)
          ]
      | inr e ↦ elim (Bool-cases (str_eq namespace "variant")) [
        | inl v ↦
            let found =
              fills_key (λ (a : AxisRow). a.key) (λ k. is_none (axis_value k axes)) key
                s.variant_axes (is_axis-problem s slot namespace key h v) g in
            elim (Option-cases (axis_value key axes)) [
              | inl n ↦ cc
              | inr (t, n) ↦ (t, rw (e, v, n) refl)
            ]
        | inr v ↦ (m, rw (e, v) refl)
      ]
    ]

append-empty : (xs ys : List String) → xs ++ ys ≡ [] → (xs ≡ []) × (ys ≡ [])
append-empty [] ys h = (refl, h)
append-empty (x ∷ xs) ys h = cc

substitute_all-ok :
    (py : Texts) (s : SpecSnapshot) (slot : CatalogSlotRow) (attributes : JsonDict) (axes : Axes)
    (segments : List Segment)
    → problems s slot segments ≡ []
    → All (FillsAttribute attributes) s.attribute_definitions
    → All (FillsAxis axes) s.variant_axes
    → (text : String) × (substitute_all py attributes axes segments ≡ ok text)
unfolding problems substitute_all replacement
substitute_all-ok py s slot attributes axes [] h f g = ("", refl)
substitute_all-ok py s slot attributes axes (plain t ∷ rest) h f g =
    let (text, e) = substitute_all-ok py s slot attributes axes rest h f g in
    (t <+> text, rw e refl)
substitute_all-ok py s slot attributes axes (malformed m body ∷ rest) h f g = cc
substitute_all-ok py s slot attributes axes (placeholder m namespace key ∷ rest) h f g =
    let (mine, theirs) =
      append-empty (placeholder_problem s slot namespace key) (problems s slot rest) h in
    let (t, d) = replacement-ok py s slot attributes axes m namespace key mine f g in
    let (text, e) = substitute_all-ok py s slot attributes axes rest theirs f g in
    (t <+> text, rw (d, e) refl)

-- A template in which the validator finds no problem for a catalog slot, and attributes and axis values that
-- have a value for every attribute and axis of the spec: the prompt composes, with no error.
pub compose_prompt-validate_template_placeholders :
    (py : Texts) (s : SpecSnapshot) (slot_id : Uuid) (prompt_template : String)
    (attributes : JsonDict) (axes : Axes)
    → validate_template_placeholders py s slot_id prompt_template ≡ []
    → All (FillsAttribute attributes) s.attribute_definitions
    → All (FillsAxis axes) s.variant_axes
    → (prompt : String) × (compose_prompt py s slot_id prompt_template attributes axes ≡ ok prompt)
unfolding validate_template_placeholders compose_prompt
compose_prompt-validate_template_placeholders py s slot_id prompt_template attributes axes h f g =
    elim (Option-cases (find_catalog_slot s slot_id)) [
      | inl n ↦ cc (rw n at h)
      | inr (slot, n) ↦
          let (scene, e) =
            substitute_all-ok py s slot attributes axes (py.segments prompt_template) (rw n at h) f
              g in
          (with_lines scene (render_role_lines s slot_id), rw e refl)
    ]
