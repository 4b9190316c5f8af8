-- ===== src/Scenarios/Lives/Templates.antt =====
-- A template whose analysis fails, and one that was analysed.
use softbox_ai.Prelude.{◌≡◌, none, some, List, [], ◌∷◌, true, refl}
use softbox_ai.Entities.History.{history}
use softbox_ai.Entities.CatalogTemplate.{CatalogTemplate, uploaded, analysed, analysed_image}
use softbox_ai.Entities.CatalogTemplate.Lifecycle.{
  Call, call, start, fail, retry, retire, finish, is_finished, content, history-frozen,
}

abbrev fresh_template : CatalogTemplate
fresh_template = record {
  id = 40;
  tenant_id = 1;
  catalog_image_slot_id = 30;
  name = "plain";
  version = 1;
  is_default = true;
  position = 0;
  kind = analysed_image;
  source_asset_id = some 51;
  status = uploaded;
  analysis = none;
  prompt_template = none;
  prompt_version = none;
  analysis_model = none;
  analysed_at = none;
  analysis_error = none;
  created_by = 5;
  created_at = 1;
  updated_at = 1;
}

abbrev analysed_template : CatalogTemplate
analysed_template = record fresh_template {
  status = analysed;
  prompt_template = some "a {colour} chair";
  analysed_at = some 2;
}

abbrev calls : List Call
calls =
    start 3 ∷ fail "timeout" 4 ∷ retry 5 ∷ start 6 ∷ finish "a chair" none none 7 ∷ retire 8 ∷ []

frozen_example :
    (is_finished (history call analysed_template calls).status ≡ true)
    × (content (history call analysed_template calls) ≡ content analysed_template)
frozen_example = history-frozen analysed_template calls refl
