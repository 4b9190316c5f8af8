-- ===== src/Table/Rows.antt =====
-- Tables as lists of rows: the statements select, update and insert.
use softbox_ai.Prelude.{List, [], ◌∷◌, ◌++◌, Option, Bool, ◌&&◌, ◌==◌, find, if◌then◌else◌}
use softbox_ai.Ids.{Uuid}

-- A row has a primary key and belongs to a tenant.
pub record Row {ℓ} (A : Type ℓ) : Type ℓ where
  pub key : A → Uuid
  pub tenant : A → Uuid

module _ {ℓ} {A : Type ℓ} ⦃row : Row A⦄ where
  abbrev pub is_row : Uuid → Uuid → A → Bool
  is_row tenant id r = row.tenant r == tenant && row.key r == id

  abbrev pub get : Uuid → Uuid → List A → Option A
  get tenant id rows = find (is_row tenant id) rows

  abbrev pub save : A → List A → List A
  save x [] = []
  save x (r ∷ rows) = (if row.key r == row.key x then x else r) ∷ save x rows

  -- The flush of several rows, one by one.
  abbrev pub save_all : List A → List A → List A
  save_all [] rows = rows
  save_all (x ∷ xs) rows = save_all xs (save x rows)

  abbrev pub insert : A → List A → List A
  insert x rows = rows ++ x ∷ []
