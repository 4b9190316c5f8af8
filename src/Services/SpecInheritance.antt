-- ===== src/Services/SpecInheritance.antt =====
-- src/app/services/spec_inheritance.py: definition rows inherited down the category tree. A dict is
-- the list of its items, in the order in which the keys first came.
pub mod LastWriter
use softbox_ai.Prelude.{
  String, Option, none, some, List, [], ◌∷◌, Bool, ◌==◌, str_eq, filter, if◌then◌else◌,
}
use softbox_ai.Ids.{Uuid}

-- The protocol of a row.
pub record OwnedByCategory {ℓ} (A : Type ℓ) : Type ℓ where
  pub category_id : A → Uuid
  pub row_key : A → String

abbrev pub Dict : Type 0 → Type 0
Dict A = List (String × A)

module _ {A : Type 0} where
  -- `resolved[key] = row`.
  abbrev pub put : String → A → Dict A → Dict A
  put k x [] = (k, x) ∷ []
  put k x (e ∷ d) = let rest = put k x d in if str_eq e.0 k then (k, x) ∷ d else e ∷ rest

  -- `resolved.get(key)`.
  abbrev pub lookup : String → Dict A → Option A
  lookup k [] = none
  lookup k (e ∷ d) = let rest = lookup k d in if str_eq e.0 k then some e.1 else rest

module _ {A : Type 0} ⦃owned : OwnedByCategory A⦄ where
  -- `by_category.get(category_id, [])`: the category's rows in the order given.
  abbrev pub by_category : List A → Uuid → List A
  by_category rows category = filter (λ r. owned.category_id r == category) rows

  -- The inner loop.
  unfoldable pub put_rows : List A → Dict A → Dict A
  put_rows [] resolved = resolved
  put_rows (r ∷ rows) resolved = put_rows rows (put (owned.row_key r) r resolved)

  -- The outer loop.
  unfoldable pub put_chain : List Uuid → List A → Dict A → Dict A
  unfolding put_rows
  put_chain [] rows resolved = resolved
  put_chain (category ∷ chain) rows resolved =
      put_chain chain rows (put_rows (by_category rows category) resolved)

  unfoldable pub resolve_inherited : List Uuid → List A → Dict A
  unfolding put_chain
  resolve_inherited chain rows = put_chain chain rows []
