-- ===== src/Scenarios/Copy.antt =====
-- A draft that an editor replaces.
use softbox_ai.Prelude.{◌≡◌, ◌⊎◌, String, none, some, [], ◌∷◌, All, refl}
use softbox_ai.Services.CopyValidation.{validate_copy}
use softbox_ai.Services.CopyValidation.Clean.{IsUnmentioned}
use softbox_ai.Services.SettingsResolver.{get}
use softbox_ai.Entities.Category.{ancestor_ids}
use softbox_ai.UnitOfWork.{Db}
use softbox_ai.Features.Content.Gate.{resolve_forbidden_claims}
use softbox_ai.Features.Content.EditContentDraft.{Edit, candidate}
use softbox_ai.Features.Content.EditContentDraft.Replaces.{Rejected, Edited, edit_content_draft_lem}
use softbox_ai.Json.{text, items, nil, cons}
use softbox_ai.Entities.Setting
use softbox_ai.Entities.Setting.{Setting}
use softbox_ai.Scenarios.Data.{approved_draft, variant}
use softbox_ai.Scenarios.Pipeline.{judged, chair, furniture}

abbrev no_silk : Setting
no_silk = record {
  id = 501;
  tenant_id = some 1;
  scope_type = Setting.category;
  scope_id = some 63;
  key = "content.forbidden_claims";
  value = items (cons (text "silk") nil);
  created_at = 1;
  updated_at = 1;
}

abbrev desk : Db
desk = record judged { settings = no_silk ∷ [] }

abbrev edit : Edit
edit = record { title = none; body = "An oak chair."; hashtags = []; cta = none; alt_text = "Oak" }

abbrev lower : String → String
lower s = s

edit_example :
    ((alt : String)
      → validate_copy lower
          (record (candidate edit approved_draft) { alt_text = alt })
          ("silk" ∷ [])
        ≡ validate_copy lower (candidate edit approved_draft) ("silk" ∷ []))
    × (Rejected lower 96 1 95 5 edit 9 desk approved_draft ("silk" ∷ [])
        ⊎ (All (IsUnmentioned lower (candidate edit approved_draft)) ("silk" ∷ [])
            × Edited lower 96 1 95 5 edit 9 desk approved_draft chair furniture))
unfolding resolve_forbidden_claims get ancestor_ids
edit_example =
    edit_content_draft_lem lower 96 1 95 5 edit 9 desk approved_draft variant chair furniture
      ("silk" ∷ []) refl refl refl refl refl refl refl
