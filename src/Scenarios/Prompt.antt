-- ===== src/Scenarios/Prompt.antt =====
-- A template that names an attribute and an axis, and a product that fills in both.
use softbox_ai.Prelude.{◌≡◌, refl, String, none, [], ◌∷◌, true}
use softbox_ai.Errors.{ok}
use softbox_ai.Json.{Json, JsonDict, text, entry, empty}
use softbox_ai.Entities.SpecSnapshot.{SpecSnapshot}
use softbox_ai.Services.PromptComposition.{Texts, Axes, plain, placeholder, compose_prompt}
use softbox_ai.Services.TemplatePlaceholderValidator.{problems, placeholder_problem}
use softbox_ai.Services.TemplatePlaceholderValidator.Composes.{
  compose_prompt-validate_template_placeholders,
}
use softbox_ai.Scenarios.Data.{spec_version}

abbrev shown : Json → String
shown (text t) = t
shown _ = ""

abbrev python : Texts
python = record {
  segments = λ t.
      plain "A "
      ∷ placeholder "{{variant.colour}}" "variant" "colour"
      ∷ plain " chair of "
      ∷ placeholder "{{attr.material}}" "attr" "material"
      ∷ [];
  str = shown;
}

abbrev chair_spec : SpecSnapshot
chair_spec = record spec_version.snapshot {
  attribute_definitions =
      record { key = "material"; semantic_role = none; is_required = true } ∷ [];
  variant_axes = record { key = "colour"; values = [] } ∷ [];
}

abbrev attributes : JsonDict
attributes = entry "material" (text "oak") empty

abbrev axes : Axes
axes = ("colour", "maroon") ∷ []

prompt_example :
    (prompt : String) × (compose_prompt python chair_spec 30 "scene" attributes axes ≡ ok prompt)
unfolding softbox_ai.Services.TemplatePlaceholderValidator.validate_template_placeholders
prompt_example =
    compose_prompt-validate_template_placeholders python chair_spec 30 "scene" attributes axes refl
      (refl, tt) (refl, tt)
