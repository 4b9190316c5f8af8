-- ===== src/Services/ProductReadiness.antt =====
-- src/app/services/product_readiness.py: what a product still lacks.
pub mod Complete
use softbox_ai.Prelude.{
  String, Option, none, some, List, [], ◌∷◌, ◌++◌, Bool, true, false, not, ◌||◌, ◌<+>◌, str_eq,
  if◌then◌else◌,
}
use softbox_ai.Ids.{Uuid}
use softbox_ai.Json.{Json, null, text, JsonDict, value_at}
use softbox_ai.Entities.ProductInputImage.{ProductInputImage, InputImageStatus, is_ready}
use softbox_ai.Entities.SpecSnapshot.{SpecSnapshot, AttributeRow, InputSlotRow}
use softbox_ai.Services.InputImageResolution.{resolve_input_image}

pub record ReadinessResult : Type 0 where
  pub is_ready : Bool
  pub missing : List String

-- `attributes.get(key) in (None, "")`.
abbrev pub is_blank : Option Json → Bool
is_blank none = true
is_blank (some null) = true
is_blank (some (text s)) = str_eq s ""
is_blank (some _) = false

abbrev pub is_usable : Option ProductInputImage → Bool
is_usable none = false
is_usable (some image) = is_ready image.status

-- The two loops.
unfoldable pub missing_attributes : JsonDict → List AttributeRow → List String
missing_attributes attributes [] = []
missing_attributes attributes (d ∷ ds) =
    let rest = missing_attributes attributes ds in
    if not d.is_required || not (is_blank (value_at d.key attributes))
    then rest
    else ("attribute:" <+> d.key) ∷ rest

unfoldable pub missing_inputs :
    List ProductInputImage → Option Uuid → List InputSlotRow → List String
unfolding resolve_input_image
missing_inputs images variant [] = []
missing_inputs images variant (slot ∷ slots) =
    let rest = missing_inputs images variant slots in
    if not slot.is_required || is_usable (resolve_input_image images variant slot.id)
    then rest
    else ("input_image:" <+> slot.key) ∷ rest

abbrev pub is_empty : List String → Bool
is_empty [] = true
is_empty (s ∷ ss) = false

unfoldable pub compute_product_readiness :
    SpecSnapshot → JsonDict → List ProductInputImage → Option Uuid → ReadinessResult
unfolding missing_attributes missing_inputs
compute_product_readiness snapshot attributes images variant =
    let missing =
      missing_attributes attributes snapshot.attribute_definitions
      ++ missing_inputs images variant snapshot.input_image_slots in
    record { is_ready = is_empty missing; missing = missing }
