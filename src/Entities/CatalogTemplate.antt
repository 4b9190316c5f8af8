-- ===== src/Entities/CatalogTemplate.antt =====
-- src/app/entities/catalog_template.py: a scene template, from an uploaded photo or authored.
pub mod Lifecycle
use softbox_ai.Prelude.{ℕ, String, Option, none, some, Bool, true, false, if◌then◌else◌}
use softbox_ai.Errors.{Result, ok, err, cannot, validation_error}
use softbox_ai.Ids.{Uuid, Instant}
use softbox_ai.Json.{JsonDict}

pub data TemplateKind : Type 0 where
  analysed_image authored_scene : TemplateKind

pub data TemplateStatus : Type 0 where
  uploaded analysing analysed analysis_failed invalid archived : TemplateStatus

pub value : TemplateStatus → String
value uploaded = "uploaded"
value analysing = "analysing"
value analysed = "analysed"
value analysis_failed = "analysis_failed"
value invalid = "invalid"
value archived = "archived"

pub record CatalogTemplate : Type 0 where
  pub id : Uuid
  pub tenant_id : Uuid
  pub catalog_image_slot_id : Uuid
  pub name : String
  pub version : ℕ
  pub is_default : Bool
  pub position : ℕ
  pub kind : TemplateKind
  pub source_asset_id : Option Uuid
  pub status : TemplateStatus
  pub analysis : Option JsonDict
  pub prompt_template : Option String
  pub prompt_version : Option ℕ
  pub analysis_model : Option String
  pub analysed_at : Option Instant
  pub analysis_error : Option String
  pub created_by : Uuid
  pub created_at : Instant
  pub updated_at : Instant

-- `new_id` is what `new_catalog_template_id()` draws.
unfoldable pub create_from_upload :
    (new_id tenant_id catalog_image_slot_id : Uuid) (name : String)
    (source_asset_id created_by : Uuid) (now : Instant) (version : ℕ) (is_default : Bool)
    (position : ℕ)
    → CatalogTemplate
create_from_upload new_id tenant slot name source user now version default position = record {
  id = new_id;
  tenant_id = tenant;
  catalog_image_slot_id = slot;
  name = name;
  version = version;
  is_default = default;
  position = position;
  kind = analysed_image;
  source_asset_id = some source;
  status = uploaded;
  analysis = none;
  prompt_template = none;
  prompt_version = none;
  analysis_model = none;
  analysed_at = none;
  analysis_error = none;
  created_by = user;
  created_at = now;
  updated_at = now;
}

unfoldable pub create_authored :
    (new_id tenant_id catalog_image_slot_id : Uuid) (name prompt_template : String)
    (created_by : Uuid) (now : Instant) (version : ℕ) (is_default : Bool) (position : ℕ)
    → CatalogTemplate
create_authored new_id tenant slot name prompt user now version default position = record {
  id = new_id;
  tenant_id = tenant;
  catalog_image_slot_id = slot;
  name = name;
  version = version;
  is_default = default;
  position = position;
  kind = authored_scene;
  source_asset_id = none;
  status = uploaded;
  analysis = none;
  prompt_template = some prompt;
  prompt_version = some 1;
  analysis_model = none;
  analysed_at = none;
  analysis_error = none;
  created_by = user;
  created_at = now;
  updated_at = now;
}

abbrev pub is_uploaded : TemplateStatus → Bool
is_uploaded uploaded = true
is_uploaded _ = false

abbrev pub is_analysing : TemplateStatus → Bool
is_analysing analysing = true
is_analysing _ = false

abbrev pub is_analysed : TemplateStatus → Bool
is_analysed analysed = true
is_analysed _ = false

abbrev pub is_analysis_failed : TemplateStatus → Bool
is_analysis_failed analysis_failed = true
is_analysis_failed _ = false

unfoldable pub start_analysing : Instant → CatalogTemplate → Result CatalogTemplate
start_analysing now t =
    if is_uploaded t.status
    then ok (record t { status = analysing; updated_at = now })
    else err (cannot "start analysis" (value t.status))

unfoldable pub mark_analysed :
    String → Option JsonDict → Option String → Instant → CatalogTemplate → Result CatalogTemplate
mark_analysed prompt analysis model now t =
    if is_analysing t.status
    then ok (record t {
      status = analysed;
      prompt_template = some prompt;
      analysis = analysis;
      analysis_model = model;
      analysed_at = some now;
      analysis_error = none;
      updated_at = now;
    })
    else err (cannot "complete analysis" (value t.status))

unfoldable pub mark_invalid : String → Instant → CatalogTemplate → Result CatalogTemplate
mark_invalid reason now t =
    if is_analysing t.status
    then ok (record t { status = invalid; analysis_error = some reason; updated_at = now })
    else err (cannot "invalidate a template" (value t.status))

unfoldable pub mark_analysis_failed : String → Instant → CatalogTemplate → Result CatalogTemplate
mark_analysis_failed reason now t =
    if is_analysing t.status
    then ok (record t { status = analysis_failed; analysis_error = some reason; updated_at = now })
    else err (cannot "fail analysis" (value t.status))

unfoldable pub retry_analysis : Instant → CatalogTemplate → Result CatalogTemplate
retry_analysis now t =
    if is_analysis_failed t.status
    then ok (record t { status = uploaded; analysis_error = none; updated_at = now })
    else err (cannot "retry analysis" (value t.status))

unfoldable pub archive : Instant → CatalogTemplate → Result CatalogTemplate
archive now t =
    if is_analysed t.status
    then ok (record t { status = archived; updated_at = now })
    else err (validation_error "Only an analysed template can be archived.")
