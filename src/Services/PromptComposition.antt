-- ===== src/Services/PromptComposition.antt =====
-- src/app/services/prompt_composition.py and prompt_rendering.py. What Python's `re` finds is given: a
-- template as the texts and placeholders that it is made of; a match that has not the shape
-- `namespace.key` is malformed. `str()` of a JSON value is given too.
use softbox_ai.Prelude.{
  String, Option, none, some, List, [], ◌∷◌, ◌<+>◌, str_eq, ◌==◌, sort_by, if◌then◌else◌,
}
use softbox_ai.Errors.{Result, ok, err, require, validation_error, ◌>>=◌}
use softbox_ai.Ids.{Uuid}
use softbox_ai.Json.{Json, JsonDict, value_at, merge}
use softbox_ai.Entities.SpecSnapshot.{
  SpecSnapshot, CatalogSlotRow, RequirementRow, InputSlotRow, find_catalog_slot,
}

abbrev pub composition_version : String
composition_version = "composition-v1"

-- `match` is the text of the whole placeholder.
pub data Segment : Type 0 where
  plain : String → Segment
  malformed : (match body : String) → Segment
  placeholder : (match namespace key : String) → Segment

pub record Texts : Type 0 where
  pub segments : String → List Segment
  pub str : Json → String

unfoldable pub merge_attributes : JsonDict → JsonDict → JsonDict
unfolding merge
merge_attributes product_attributes variant_attributes = merge product_attributes variant_attributes

abbrev pub Axes : Type 0
Axes = List (String × String)

abbrev pub axis_value : String → Axes → Option String
axis_value k [] = none
axis_value k (a ∷ axes) = let rest = axis_value k axes in if str_eq a.0 k then some a.1 else rest

abbrev pub attribute_text : Texts → Option Json → Result String
attribute_text py none = err (validation_error "Product has no value for attribute.")
attribute_text py (some v) = ok (py.str v)

-- `_replace`.
unfoldable pub replacement : Texts → JsonDict → Axes → Segment → Result String
replacement py attributes axes (plain s) = ok s
replacement py attributes axes (malformed m body) = ok m
replacement py attributes axes (placeholder m namespace key) =
    if str_eq namespace "attr"
    then attribute_text py (value_at key attributes)
    else if str_eq namespace "variant"
    then require (axis_value key axes) (validation_error "Variant has no value for axis.")
    else ok m

unfoldable pub substitute_all : Texts → JsonDict → Axes → List Segment → Result String
unfolding replacement
substitute_all py attributes axes [] = ok ""
substitute_all py attributes axes (s ∷ rest) = do
  text ← replacement py attributes axes s
  texts ← substitute_all py attributes axes rest
  ok (text <+> texts)

-- `slots_by_id.get(id)`: of two rows with one id the later one.
abbrev pub or_later : InputSlotRow → Option InputSlotRow → Option InputSlotRow
or_later slot none = some slot
or_later slot (some later) = some later

abbrev pub slot_by_id : Uuid → List InputSlotRow → Option InputSlotRow
slot_by_id id [] = none
slot_by_id id (slot ∷ slots) =
    let rest = slot_by_id id slots in if slot.id == id then or_later slot rest else rest

-- `description or label`.
abbrev pub text_of : Option String → String → String
text_of none label = label
text_of (some s) label = if str_eq s "" then label else s

abbrev pub role_line : RequirementRow → Option InputSlotRow → List String → List String
role_line r none lines = lines
role_line r (some slot) lines = (r.role <+> ": " <+> text_of slot.description slot.label) ∷ lines

abbrev pub lines_for : List InputSlotRow → List RequirementRow → List String
lines_for slots [] = []
lines_for slots (r ∷ rs) = role_line r (slot_by_id r.input_image_slot_id slots) (lines_for slots rs)

abbrev pub lines_of : List InputSlotRow → Option CatalogSlotRow → List String
lines_of slots none = []
lines_of slots (some slot) =
    lines_for slots (sort_by (λ (r : RequirementRow). r.prompt_position) slot.input_requirements)

unfoldable pub render_role_lines : SpecSnapshot → Uuid → List String
render_role_lines s slot_id = lines_of s.input_image_slots (find_catalog_slot s slot_id)

-- `"\n".join(lines)`.
abbrev pub join_lines : String → List String → String
join_lines line [] = line
join_lines line (next ∷ lines) = line <+> "\n" <+> join_lines next lines

abbrev pub with_lines : String → List String → String
with_lines scene [] = scene
with_lines scene (line ∷ lines) = scene <+> "\n\n" <+> join_lines line lines

unfoldable pub compose_prompt :
    Texts → SpecSnapshot → Uuid → String → JsonDict → Axes → Result String
unfolding substitute_all render_role_lines
compose_prompt py snapshot slot_id prompt_template attributes axes = do
  scene ← substitute_all py attributes axes (py.segments prompt_template)
  ok (with_lines scene (render_role_lines snapshot slot_id))
