-- ===== src/Services/VariantAxisValidation.antt =====
-- src/app/services/variant_axis_validation.py. The message for a value leaves out the allowed values.
use softbox_ai.Prelude.{
  String, Option, none, some, List, [], ◌∷◌, ◌++◌, Bool, true, any, str_eq, ◌<+>◌, if◌then◌else◌,
}
use softbox_ai.Entities.SpecSnapshot.{SpecSnapshot, AxisRow}
use softbox_ai.Services.PromptComposition.{Axes}

abbrev pub or_later : AxisRow → Option AxisRow → Option AxisRow
or_later axis none = some axis
or_later axis (some later) = some later

-- `axes_by_key.get(key)`: of two axes with one key the later one.
abbrev pub axis_by_key : String → List AxisRow → Option AxisRow
axis_by_key key [] = none
axis_by_key key (axis ∷ axes) =
    let rest = axis_by_key key axes in if str_eq axis.key key then or_later axis rest else rest

-- No value is declared, or this one is.
abbrev pub allows : String → List String → Bool
allows value [] = true
allows value (v ∷ values) = any (λ w. str_eq w value) (v ∷ values)

abbrev pub axis_problem : String → String → Option AxisRow → List String
axis_problem key value none = ("Unknown variant axis '" <+> key <+> "'.") ∷ []
axis_problem key value (some axis) =
    if allows value axis.values
    then []
    else ("'" <+> value <+> "' is not a valid value for axis '" <+> key <+> "'.") ∷ []

unfoldable pub validate_axis_values : SpecSnapshot → Axes → List String
validate_axis_values s [] = []
validate_axis_values s (a ∷ axis_values) =
    axis_problem a.0 a.1 (axis_by_key a.0 s.variant_axes) ++ validate_axis_values s axis_values
