-- ===== src/Scenarios/Decisions.antt =====
-- The decision services on small inputs.
use softbox_ai.Prelude.{◌≤◌, ◌≡◌, String, Option, none, some, List, [], ◌∷◌, All, In}
use softbox_ai.Errors.{ok}
use softbox_ai.Ids.{Uuid}
use softbox_ai.Entities.GenerationItem.{GenerationItem}
use softbox_ai.Entities.ProductInputImage
use softbox_ai.Entities.ProductInputImage.{ProductInputImage}
use softbox_ai.Services.GenerationRequestRollup.{slot_verdict, compute_rollup}
use softbox_ai.Services.GenerationRequestRollup.Verdicts.{Means, slot_verdict_lem}
use softbox_ai.Services.GenerationRequestRollup.Totals.{Rollup, compute_rollup_lem}
use softbox_ai.Services.QcRetryLadder.{RetryRung, next_rung}
use softbox_ai.Services.QcRetryLadder.Bounds.{Rung, next_rung_lem}
use softbox_ai.Services.InputImageResolution.{resolve_input_image}
use softbox_ai.Services.InputImageResolution.Precedence.{Resolves, resolve_input_image_lem}
use softbox_ai.Services.SpecInheritance.{OwnedByCategory, lookup, resolve_inherited}
use softbox_ai.Services.SpecInheritance.LastWriter.{
  last_match, has_key, along, lookup-resolve_inherited,
}
use softbox_ai.Scenarios.Data.{running_item, succeeded_item}

-- A later attempt that runs does not hide the success.
abbrev attempts : List GenerationItem
attempts = succeeded_item ∷ record running_item { attempt_no = 2 } ∷ []

verdict_example : Means (slot_verdict attempts) attempts
verdict_example = slot_verdict_lem attempts

rollup_example :
    Rollup
      (30 ∷ 31 ∷ [])
      attempts
      (compute_rollup (30 ∷ 31 ∷ []) attempts)
      (compute_rollup (30 ∷ 31 ∷ []) attempts).status
rollup_example = compute_rollup_lem (30 ∷ 31 ∷ []) attempts

ladder_example :
    (latest : GenerationItem) × (o : Option RetryRung) × (next_rung (running_item ∷ []) [] ≡ ok o)
    × In latest (running_item ∷ [])
    × All (λ i. i.attempt_no ≤ latest.attempt_no) (running_item ∷ [])
    × Rung (running_item ∷ []) [] latest o
ladder_example = next_rung_lem running_item [] []

abbrev photo : Uuid → Option Uuid → ProductInputImage
photo i v = record {
  id = i;
  tenant_id = 1;
  product_id = 60;
  variant_id = v;
  input_image_slot_id = 33;
  asset_id = 50;
  normalised_asset_id = none;
  status = ProductInputImage.ready;
  rejection_reason = none;
  created_by = 5;
  created_at = 1;
  updated_at = 1;
}

abbrev photos : List ProductInputImage
photos = photo 1 none ∷ photo 2 (some 61) ∷ []

photo_example : Resolves photos (some 61) 33 (resolve_input_image photos (some 61) 33)
photo_example = resolve_input_image_lem photos 33 (some 61)

-- A definition row: its category, its key and its own id.
record DefinitionRow : Type 0 where
  category_id : Uuid
  key : String
  id : Uuid

instance abbrev row_owner : OwnedByCategory DefinitionRow
row_owner = record { category_id = λ r. r.category_id; row_key = λ r. r.key }

-- The leaf, category 3, overrides what the root, category 2, says of the colour.
abbrev rows : List DefinitionRow
rows =
    record { category_id = 3; key = "colour"; id = 12 }
    ∷ record { category_id = 2; key = "colour"; id = 11 }
    ∷ record { category_id = 2; key = "size"; id = 13 }
    ∷ []

inherited_example :
    lookup "colour" (resolve_inherited (2 ∷ 3 ∷ []) rows)
    ≡ last_match (has_key "colour") (along "colour" (2 ∷ 3 ∷ []) rows) none
inherited_example = lookup-resolve_inherited "colour" (2 ∷ 3 ∷ []) rows
