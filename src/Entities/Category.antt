-- ===== src/Entities/Category.antt =====
-- src/app/entities/category.py: a node of the taxonomy. The text of `path`, ids joined by dots, is
-- the list of those ids: an id's text has no dot, so a text starts with another and a dot exactly
-- when the list strictly extends the other.
use softbox_ai.Prelude.{
  ℕ, ℤ, pos, ◌+ℤ◌, String, Option, none, some, List, [], ◌∷◌, ◌++◌, Bool, true,
}
use softbox_ai.Ids.{Uuid, Instant}

pub record Category : Type 0 where
  pub id : Uuid
  pub tenant_id : Uuid
  pub parent_id : Option Uuid
  pub path : List Uuid
  pub depth : ℤ
  pub key : String
  pub name : String
  pub slug : String
  pub description : Option String
  pub position : ℕ
  pub is_active : Bool
  pub current_spec_version : Option ℕ
  pub draft_spec_version : Option ℕ
  pub created_at : Instant
  pub updated_at : Instant

abbrev pub path_under : Uuid → Option Category → List Uuid
path_under id none = id ∷ []
path_under id (some parent) = parent.path ++ id ∷ []

abbrev pub depth_under : Option Category → ℤ
depth_under none = pos 0
depth_under (some parent) = parent.depth +ℤ pos 1

abbrev pub id_of : Option Category → Option Uuid
id_of none = none
id_of (some parent) = some parent.id

-- `new_id` is what `new_category_id()` draws.
unfoldable pub create :
    (new_id tenant_id : Uuid) (key name slug : String) (parent : Option Category) (now : Instant)
    (description : Option String) (position : ℕ)
    → Category
create new_id tenant key name slug parent now description position = record {
  id = new_id;
  tenant_id = tenant;
  parent_id = id_of parent;
  path = path_under new_id parent;
  depth = depth_under parent;
  key = key;
  name = name;
  slug = slug;
  description = description;
  position = position;
  is_active = true;
  current_spec_version = none;
  draft_spec_version = none;
  created_at = now;
  updated_at = now;
}

unfoldable pub ancestor_ids : Category → List Uuid
ancestor_ids c = c.path
