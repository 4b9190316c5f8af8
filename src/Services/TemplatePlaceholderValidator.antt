-- ===== src/Services/TemplatePlaceholderValidator.antt =====
-- src/app/services/template_placeholder_validator.py, over the segments that Python's `re` finds.
pub mod Composes
use softbox_ai.Prelude.{
  String, Option, none, some, List, [], ◌∷◌, ◌++◌, Bool, true, false, not, ◌&&◌, ◌||◌, any, str_eq,
  ◌<+>◌, if◌then◌else◌,
}
use softbox_ai.Ids.{Uuid}
use softbox_ai.Entities.SpecSnapshot.{
  SpecSnapshot, CatalogSlotRow, RequirementRow, InputSlotRow, AttributeRow, AxisRow,
  find_catalog_slot,
}
use softbox_ai.Services.PromptComposition.{
  Segment, plain, malformed, placeholder, Texts, slot_by_id,
}

abbrev pub has_key : String → Option InputSlotRow → Bool
has_key key none = false
has_key key (some slot) = str_eq slot.key key

-- `key in required_input_keys`.
abbrev pub is_required_input : List InputSlotRow → CatalogSlotRow → String → Bool
is_required_input slots slot key =
    any (λ (r : RequirementRow). has_key key (slot_by_id r.input_image_slot_id slots))
      slot.input_requirements

abbrev pub is_attribute : SpecSnapshot → String → Bool
is_attribute s key = any (λ (d : AttributeRow). str_eq d.key key) s.attribute_definitions

abbrev pub is_axis : SpecSnapshot → String → Bool
is_axis s key = any (λ (a : AxisRow). str_eq a.key key) s.variant_axes

-- The problem of a placeholder, if it has one.
unfoldable pub placeholder_problem : SpecSnapshot → CatalogSlotRow → String → String → List String
placeholder_problem s slot namespace key =
    if not (str_eq namespace "input" || (str_eq namespace "attr" || str_eq namespace "variant"))
    then ("Unknown placeholder namespace {{" <+> namespace <+> "." <+> key <+> "}}.") ∷ []
    else if str_eq namespace "input" && not (is_required_input s.input_image_slots slot key)
    then ("{{input." <+> key <+> "}} does not resolve to an input this catalog slot requires.") ∷ []
    else if str_eq namespace "attr" && not (is_attribute s key)
    then ("{{attr." <+> key <+> "}} does not resolve to an attribute in this spec.") ∷ []
    else if str_eq namespace "variant" && not (is_axis s key)
    then ("{{variant." <+> key <+> "}} does not resolve to a variant axis in this spec.") ∷ []
    else []

-- The loop over the matches.
unfoldable pub problems : SpecSnapshot → CatalogSlotRow → List Segment → List String
unfolding placeholder_problem
problems s slot [] = []
problems s slot (plain t ∷ rest) = problems s slot rest
problems s slot (malformed m body ∷ rest) =
    ("Malformed placeholder {{" <+> body <+> "}} - expected {{namespace.key}}.")
    ∷ problems s slot rest
problems s slot (placeholder m namespace key ∷ rest) =
    placeholder_problem s slot namespace key ++ problems s slot rest

-- `if catalog_slot is None`.
abbrev pub problems_in : SpecSnapshot → Option CatalogSlotRow → List Segment → List String
problems_in s none segments = "Catalog image slot not found in this spec." ∷ []
problems_in s (some slot) segments = problems s slot segments

unfoldable pub validate_template_placeholders : Texts → SpecSnapshot → Uuid → String → List String
unfolding problems
validate_template_placeholders py s slot_id prompt_template =
    problems_in s (find_catalog_slot s slot_id) (py.segments prompt_template)
