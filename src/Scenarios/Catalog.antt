-- ===== src/Scenarios/Catalog.antt =====
-- The category tree and the settings of the sample tenant.
use softbox_ai.Prelude.{
  ℕ, ◌≡◌, pos, inl, inr, Option, none, some, List, [], ◌∷◌, true, false, arith, refl,
}
use softbox_ai.Prelude.Int.{◌+ℤ◌}
use softbox_ai.Errors.{ok}
use softbox_ai.Ids.{Uuid}
use softbox_ai.Json.{boolean}
use softbox_ai.Entities.Category.{Category, ancestor_ids}
use softbox_ai.Entities.Setting
use softbox_ai.Entities.Setting.{Setting, platform, tenant, category, product}
use softbox_ai.Services.SettingsResolver.{get, resolve}
use softbox_ai.Services.SettingsResolver.Precedence.{first_value, above, resolve_lem}
use softbox_ai.UnitOfWork.{Db}
use softbox_ai.Features.Settings.RoundTrip.{Written, get-upsert_setting}
use softbox_ai.Features.Taxonomy.CreateCategory.{parent_of}
use softbox_ai.Features.Taxonomy.MoveCategory.Tree.{IsTree}
use softbox_ai.Features.Taxonomy.MoveCategory.Move.{Moves, move_category_lem}
use softbox_ai.Scenarios.Data.{shop}

abbrev node : Uuid → Option Uuid → List Uuid → ℕ → Category
node id parent path depth = record {
  id = id;
  tenant_id = 1;
  parent_id = parent;
  path = path;
  depth = pos depth;
  key = "key";
  name = "Name";
  slug = "slug";
  description = none;
  position = 0;
  is_active = true;
  current_spec_version = none;
  draft_spec_version = none;
  created_at = 1;
  updated_at = 1;
}

-- Furniture, seating below it and chairs below that; and a second root.
abbrev furniture_root : Category
furniture_root = node 200 none (200 ∷ []) 0

abbrev seating : Category
seating = node 201 (some 200) (200 ∷ 201 ∷ []) 1

abbrev chairs : Category
chairs = node 202 (some 201) (200 ∷ 201 ∷ 202 ∷ []) 2

abbrev garden : Category
garden = node 203 none (203 ∷ []) 0

abbrev shelves : Db
shelves = record shop { categories = furniture_root ∷ seating ∷ chairs ∷ garden ∷ [] }

shelves-IsTree : IsTree 1 shelves.categories
unfolding ◌+ℤ◌
shelves-IsTree = (
  (
    (omega arith, (omega arith, (omega arith, tt))),
    ((omega arith, (omega arith, tt)), ((omega arith, tt), (tt, tt))),
  ),
  (
    (λ m. inl (refl, refl, refl)),
    (
      (λ m. inr (furniture_root, refl, (refl, refl, refl))),
      ((λ m. inr (seating, refl, (refl, refl, refl))), ((λ m. inl (refl, refl, refl)), tt)),
    ),
  ),
)

-- Seating goes to the garden, with its chairs.
move_example : Moves 1 201 (some 203) 5 9 shelves seating (some garden)
unfolding parent_of
move_example =
    move_category_lem 1 201 (some 203) 5 9 shelves seating (some garden) shelves-IsTree refl refl

write_example :
    Written 510 (some 1) Setting.product (some 60) "approval.required" (boolean false) 9 shelves
write_example =
    get-upsert_setting 510 (some 1) Setting.product (some 60) "approval.required" (boolean false) 9
      shelves refl refl

abbrev settled : Db
settled = record shelves {
  settings =
      (record {
        id = 511;
        tenant_id = some 1;
        scope_type = Setting.category;
        scope_id = some 200;
        key = "approval.required";
        value = boolean true;
        created_at = 1;
        updated_at = 1;
      })
      ∷ [];
}

-- A setting of the root counts for the chairs.
resolve_example :
    resolve 1 "approval.required" (some 202) (some 60) settled
    ≡ ok (
      first_value (
          get (some 1) product (some 60) "approval.required" settled.settings
          ∷ above 1 "approval.required" (ancestor_ids chairs) settled.settings (
              get (some 1) tenant none "approval.required" settled.settings
              ∷ get none platform none "approval.required" settled.settings
              ∷ [])),
      settled,
    )
resolve_example = resolve_lem 1 "approval.required" chairs 202 60 settled refl
