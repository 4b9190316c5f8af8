-- ===== src/Services/SettingsResolver/Precedence.antt =====
-- About the order in which the scopes of a setting count.
use softbox_ai.Prelude.{◌≡◌, ◌∙◌, refl, ap, String, Option, none, some, List, [], ◌∷◌}
use softbox_ai.Errors.{ok}
use softbox_ai.Ids.{Uuid}
use softbox_ai.Json.{Json, null}
use softbox_ai.Table
use softbox_ai.Entities.Category.{Category, ancestor_ids}
use softbox_ai.Entities.Setting.{Setting, platform, tenant, category, product}
use softbox_ai.UnitOfWork.{Db, category_row}
use softbox_ai.Services.SettingsResolver.{
  get, overridden, resolve_categories, resolve_category, resolve,
}

-- The value of the first setting of the list, the most specific first.
abbrev pub first_value : List (Option Setting) → Json
first_value [] = null
first_value (none ∷ layers) = first_value layers
first_value (some s ∷ layers) = s.value

-- The layers of the ancestors given root first, the leaf first, over less specific ones.
abbrev pub above :
    Uuid → String → List Uuid → List Setting → List (Option Setting) → List (Option Setting)
above t key [] rows layers = layers
above t key (id ∷ ids) rows layers =
    above t key ids rows (get (some t) category (some id) key rows ∷ layers)

overridden_lem :
    (o : Option Setting) (layers : List (Option Setting))
    → overridden (first_value layers) o ≡ first_value (o ∷ layers)
overridden_lem none layers = refl
overridden_lem (some s) layers = refl

resolve_categories_lem :
    (t : Uuid) (key : String) (ids : List Uuid) (layers : List (Option Setting))
    (rows : List Setting)
    → resolve_categories t key ids (first_value layers) rows
      ≡ first_value (above t key ids rows layers)
unfolding resolve_categories
resolve_categories_lem t key [] layers rows = refl
resolve_categories_lem t key (id ∷ ids) layers rows =
    let o = get (some t) category (some id) key rows in
    ap (λ v. resolve_categories t key ids v rows) (overridden_lem o layers)
    ∙ resolve_categories_lem t key ids (o ∷ layers) rows

-- For a category that is stored, a key resolves to the value of the most specific setting there is:
-- the product's, then those of the category and its ancestors from the leaf up, then the tenant's,
-- then the platform's; to nothing when none of them is set. The tables are not changed.
pub resolve_lem :
    (t : Uuid) (key : String) (c : Category) (category_id product_id : Uuid) (db : Db)
    → Table.get t category_id db.categories ≡ some c
    → resolve t key (some category_id) (some product_id) db
      ≡ ok (
        first_value (
            get (some t) product (some product_id) key db.settings
            ∷ above t key (ancestor_ids c) db.settings (
                get (some t) tenant none key db.settings
                ∷ get none platform none key db.settings
                ∷ [])),
        db,
      )
unfolding resolve resolve_category
resolve_lem t key c category_id product_id db e =
    let p = get none platform none key db.settings in
    let q = get (some t) tenant none key db.settings in
    let start = ap (λ v. overridden v q) (overridden_lem p []) ∙ overridden_lem q (p ∷ []) in
    let o = get (some t) product (some product_id) key db.settings in
    let chain =
      ap (λ v. resolve_categories t key (ancestor_ids c) v db.settings) start
      ∙ resolve_categories_lem t key (ancestor_ids c) (q ∷ p ∷ []) db.settings in
    rw e (
      ap (λ v. ok (overridden v o, db)) chain
      ∙ ap (λ v. ok (v, db))
          (overridden_lem o (above t key (ancestor_ids c) db.settings (q ∷ p ∷ []))))
