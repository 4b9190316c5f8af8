-- ===== src/Services/SettingsResolver.antt =====
-- src/app/services/settings_resolver.py, with `get` of
-- src/app/infrastructure/persistence/settings_repository.py.
pub mod Precedence
use softbox_ai.Prelude.{
  String, Option, none, some, List, [], ◌∷◌, Bool, true, false, ◌&&◌, opt_eq, str_eq, find,
}
use softbox_ai.Errors.{not_found}
use softbox_ai.Ids.{Uuid}
use softbox_ai.Json.{Json, null}
use softbox_ai.Table
use softbox_ai.Entities.Category.{Category, ancestor_ids}
use softbox_ai.Entities.Setting.{Setting, SettingScope, platform, tenant, category, product}
use softbox_ai.UnitOfWork.{Db, Tx, pure, gets, found, category_row, ◌>>=◌}

abbrev pub same_scope : SettingScope → SettingScope → Bool
same_scope platform platform = true
same_scope tenant tenant = true
same_scope category category = true
same_scope product product = true
same_scope _ _ = false

abbrev pub is_setting : Option Uuid → SettingScope → Option Uuid → String → Setting → Bool
is_setting t scope id key s =
    opt_eq s.tenant_id t
    && same_scope s.scope_type scope
    && opt_eq s.scope_id id
    && str_eq s.key key

unfoldable pub get :
    Option Uuid → SettingScope → Option Uuid → String → List Setting → Option Setting
get t scope id key rows = find (is_setting t scope id key) rows

-- `if setting is not None: resolved = setting.value`.
abbrev pub overridden : Json → Option Setting → Json
overridden resolved none = resolved
overridden resolved (some s) = s.value

-- The loop over the ancestors.
unfoldable pub resolve_categories : Uuid → String → List Uuid → Json → List Setting → Json
unfolding get
resolve_categories t key [] resolved rows = resolved
resolve_categories t key (id ∷ ids) resolved rows =
    resolve_categories t key ids (overridden resolved (get (some t) category (some id) key rows))
      rows

unfoldable pub resolve_category : Uuid → String → Option Uuid → Json → Tx Json
unfolding resolve_categories ancestor_ids
resolve_category t key none resolved = pure resolved
resolve_category t key (some id) resolved = do
  c ← found (λ db. Table.get t id db.categories) (not_found "Category not found.")
  gets (λ db. resolve_categories t key (ancestor_ids c) resolved db.settings)

abbrev pub resolve_product : Uuid → String → Option Uuid → Json → List Setting → Json
resolve_product t key none resolved rows = resolved
resolve_product t key (some id) resolved rows =
    overridden resolved (get (some t) product (some id) key rows)

unfoldable pub resolve : Uuid → String → Option Uuid → Option Uuid → Tx Json
unfolding get resolve_category
resolve t key category_id product_id = do
  platform_wide ← gets (λ db. overridden null (get none platform none key db.settings))
  tenant_wide ← gets (λ db. overridden platform_wide (get (some t) tenant none key db.settings))
  resolved ← resolve_category t key category_id tenant_wide
  gets (λ db. resolve_product t key product_id resolved db.settings)
