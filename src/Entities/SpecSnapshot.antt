-- ===== src/Entities/SpecSnapshot.antt =====
-- src/app/entities/category_spec_version.py, and the shape of its `snapshot` that
-- src/app/services/spec_snapshot.py writes: of each row the keys that the modelled code
-- reads, and of a value of an axis its `value`.
use softbox_ai.Prelude.{ℕ, String, Option, List, Bool, ◌==◌, find}
use softbox_ai.Ids.{Uuid, Instant}
use softbox_ai.Json.{JsonDict}

pub record AttributeRow : Type 0 where
  pub key : String
  pub semantic_role : Option String
  pub is_required : Bool

pub record AxisRow : Type 0 where
  pub key : String
  pub values : List String

pub record InputSlotRow : Type 0 where
  pub id : Uuid
  pub key : String
  pub label : String
  pub description : Option String
  pub is_required : Bool

-- An entry of `input_requirements`.
pub record RequirementRow : Type 0 where
  pub input_image_slot_id : Uuid
  pub role : String
  pub prompt_position : ℕ
  pub is_required : Bool

pub record CatalogSlotRow : Type 0 where
  pub id : Uuid
  pub key : String
  pub is_required : Bool
  pub input_requirements : List RequirementRow

pub record SpecSnapshot : Type 0 where
  pub attribute_definitions : List AttributeRow
  pub variant_axes : List AxisRow
  pub input_image_slots : List InputSlotRow
  pub catalog_image_slots : List CatalogSlotRow

-- The loop returns the first.
abbrev pub find_catalog_slot : SpecSnapshot → Uuid → Option CatalogSlotRow
find_catalog_slot s id = find (λ slot. slot.id == id) s.catalog_image_slots

pub data SpecVersionStatus : Type 0 where
  draft published archived : SpecVersionStatus

pub record CategorySpecVersion : Type 0 where
  pub id : Uuid
  pub tenant_id : Uuid
  pub category_id : Uuid
  pub version : ℕ
  pub status : SpecVersionStatus
  pub snapshot : SpecSnapshot
  pub change_summary : Option JsonDict
  pub published_by : Uuid
  pub published_at : Instant
