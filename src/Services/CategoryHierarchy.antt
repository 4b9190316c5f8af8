-- ===== src/Services/CategoryHierarchy.antt =====
-- src/app/services/category_hierarchy.py: the paths of a subtree after a move.
pub mod Paths
use softbox_ai.Prelude.{
  ℕ, ℤ, ◌+ℤ◌, ◌-ℤ◌, String, Option, none, some, List, [], ◌∷◌, ◌++◌, Bool, true, false, not, ◌&&◌,
  ◌==◌, any, filter, if◌then◌else◌,
}
use softbox_ai.Errors.{Result, ok, err, guard, validation_error, ◌>>=◌, ◌>>◌}
use softbox_ai.Ids.{Uuid, Instant}
use softbox_ai.Entities.Category.{Category, path_under, depth_under, id_of}

-- What a path has after a prefix.
unfoldable pub suffix_of : List Uuid → List Uuid → Option (List Uuid)
suffix_of [] path = some path
suffix_of (x ∷ xs) [] = none
suffix_of (x ∷ xs) (y ∷ ys) = let rest = suffix_of xs ys in if x == y then rest else none

abbrev pub non_empty : Option (List Uuid) → Option (List Uuid)
non_empty (some (x ∷ s)) = some (x ∷ s)
non_empty _ = none

-- `row.path.startswith(old_prefix + ".")`, with what follows the prefix.
abbrev pub strict_suffix : List Uuid → List Uuid → Option (List Uuid)
strict_suffix old path = non_empty (suffix_of old path)

abbrev pub is_own_parent : Category → Option Category → Bool
is_own_parent c none = false
is_own_parent c (some p) = p.id == c.id

-- `new_parent.id in descendant_ids`.
abbrev pub is_under_itself : Category → List Category → Option Category → Bool
is_under_itself c subtree none = false
is_under_itself c subtree (some p) =
    any (λ r. r.id == p.id) (filter (λ r. not (r.id == c.id)) subtree)

abbrev pub moved : Category → Option Category → Instant → List Uuid → Category → Category
moved c parent now suffix row = record row {
  parent_id = if row.id == c.id then id_of parent else row.parent_id;
  path = path_under c.id parent ++ suffix;
  depth = row.depth +ℤ (depth_under parent -ℤ c.depth);
  updated_at = now;
}

abbrev pub suffix_in : Category → Category → Option (List Uuid)
suffix_in c row =
    let strict = strict_suffix c.path row.path in if row.id == c.id then some [] else strict

abbrev pub moved_to :
    Category → Option Category → Instant → Category → Option (List Uuid) → Result Category
moved_to c parent now row (some suffix) = ok (moved c parent now suffix row)
moved_to c parent now row none = err (validation_error "Not part of the category's subtree.")

-- The loop.
unfoldable pub move_rows :
    Category → Option Category → Instant → List Category → Result (List Category)
move_rows c parent now [] = ok []
move_rows c parent now (row ∷ rows) = do
  row' ← moved_to c parent now row (suffix_in c row)
  rows' ← move_rows c parent now rows
  ok (row' ∷ rows')

unfoldable pub reparent_subtree :
    Category → List Category → Option Category → Instant → Result (List Category)
unfolding move_rows
reparent_subtree c subtree parent now = do
  guard (not (is_own_parent c parent)) (validation_error "A category cannot be its own parent.")
  guard (not (is_under_itself c subtree parent))
      (validation_error "A category cannot be moved under its own descendant.")
  move_rows c parent now subtree
