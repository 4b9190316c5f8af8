-- ===== src/Features/Products/FanOutGenerationItems/Plan.antt =====
-- One slot of a fan-out, src/app/features/products/fan_out_generation_items.py: its template, its
-- input photos, its prompt and the attempt that they make. It only reads.
use softbox_ai.Prelude.{String, Option, none, some, List, [], ◌∷◌, Bool, true, false, ◌&&◌, find}
use softbox_ai.Errors.{Result, ok, err, require, validation_error, ◌>>=◌}
use softbox_ai.Ids.{Uuid, Instant}
use softbox_ai.Json.{JsonDict, empty}
use softbox_ai.Entities.GenerationItem
use softbox_ai.Entities.GenerationItem.{GenerationItem}
use softbox_ai.Entities.CatalogTemplate.{CatalogTemplate, is_analysed}
use softbox_ai.Entities.ProductInputImage.{ProductInputImage}
use softbox_ai.Entities.SpecSnapshot.{SpecSnapshot, CatalogSlotRow, RequirementRow}
use softbox_ai.Services.InputImageResolution.{resolve_input_image}
use softbox_ai.Services.PromptComposition.{Texts, Axes, compose_prompt, composition_version}
use softbox_ai.Features.Generation.CompleteCatalogImageQc.{Draws, list_for_catalog_slot}
use softbox_ai.Features.Generation.CompleteCatalogImageQc.RetryPrompt.{prompt_template_of}

-- What every slot of one fan-out has in common; `draws` are those of a slot.
pub record FanOut : Type 0 where
  pub py : Texts
  pub draws : Uuid → Draws
  pub provider : String
  pub model : String
  pub tenant_id : Uuid
  pub request_id : Uuid
  pub variant_id : Uuid
  pub snapshot : SpecSnapshot
  pub ready_images : List ProductInputImage
  pub attributes : JsonDict
  pub axis_values : Axes
  pub now : Instant

-- `_pick_default_template`: the first in the order of position.
unfoldable pub pick_default_template : Uuid → Uuid → List CatalogTemplate → Result CatalogTemplate
pick_default_template tenant slot_id templates =
    require
      (find (λ t. t.is_default && is_analysed t.status)
        (list_for_catalog_slot tenant slot_id templates))
      (validation_error "Catalog slot has no default, analysed template to generate from.")

-- `_resolve_required_inputs`: the photo of a requirement, if there is one.
abbrev pub input_of : Bool → Option ProductInputImage → Result (Option Uuid)
input_of required (some image) = ok (some image.asset_id)
input_of true none = err (validation_error "Required input was never captured.")
input_of false none = ok none

abbrev pub with_input : Option Uuid → List Uuid → List Uuid
with_input none ids = ids
with_input (some id) ids = id ∷ ids

unfoldable pub resolve_required_inputs :
    List ProductInputImage → Uuid → List RequirementRow → Result (List Uuid)
unfolding resolve_input_image
resolve_required_inputs images variant_id [] = ok []
resolve_required_inputs images variant_id (r ∷ rs) = do
  id ← input_of r.is_required (resolve_input_image images (some variant_id) r.input_image_slot_id)
  ids ← resolve_required_inputs images variant_id rs
  ok (with_input id ids)

unfoldable pub plan_slot : FanOut → List CatalogTemplate → CatalogSlotRow → Result GenerationItem
unfolding pick_default_template resolve_required_inputs compose_prompt GenerationItem.create
plan_slot f templates slot = do
  template ← pick_default_template f.tenant_id slot.id templates
  inputs ← resolve_required_inputs f.ready_images f.variant_id slot.input_requirements
  prompt ←
      compose_prompt f.py f.snapshot slot.id (prompt_template_of template.prompt_template)
        f.attributes f.axis_values
  ok (
      GenerationItem.create (f.draws slot.id).new_item_id f.tenant_id f.request_id
        template.catalog_image_slot_id template.id 1 f.provider f.model empty (f.draws slot.id).seed
        prompt composition_version inputs f.now)
