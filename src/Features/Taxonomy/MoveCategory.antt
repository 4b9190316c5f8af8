-- ===== src/Features/Taxonomy/MoveCategory.antt =====
-- src/app/features/taxonomy/move_category.py, with `list_subtree` of
-- src/app/infrastructure/persistence/category_repository.py.
pub mod Subtree
pub mod Tree
pub mod Guards
pub mod Move
use softbox_ai.Prelude.{
  String, Option, none, some, List, [], ◌∷◌, Bool, not, ◌&&◌, ◌||◌, ◌==◌, is_none, filter,
}
use softbox_ai.Errors.{not_found}
use softbox_ai.Ids.{Uuid, Instant}
use softbox_ai.Json.{entry, empty}
use softbox_ai.Table.{get, save_all}
use softbox_ai.Entities.Category.{Category}
use softbox_ai.Services.CategoryHierarchy.{strict_suffix, reparent_subtree}
use softbox_ai.UnitOfWork.{
  Tx, pure, lift, gets, found, modify, record_audit, AuditLogEntry, category_row, ◌>>=◌, ◌>>◌,
}
use softbox_ai.Features.Taxonomy.CreateCategory.{parent_of, id_or_null}

-- The `where` of `list_subtree` below a root that is stored.
abbrev pub in_subtree : Uuid → Category → Category → Bool
in_subtree tenant root row =
    row.tenant_id == tenant
    && (row.id == root.id || not (is_none (strict_suffix root.path row.path)))

abbrev pub subtree_of : Uuid → Option Category → List Category → List Category
subtree_of tenant none rows = []
subtree_of tenant (some root) rows = filter (in_subtree tenant root) rows

-- The rows in the order of the table; the order by path decides nothing for the caller here.
unfoldable pub list_subtree : Uuid → Uuid → List Category → List Category
list_subtree tenant id rows = subtree_of tenant (get tenant id rows) rows

abbrev pub move_entry : Uuid → Uuid → Uuid → Option Uuid → Option Uuid → Instant → AuditLogEntry
move_entry tenant user id old_parent new_parent now = record {
  tenant_id = tenant;
  actor_user_id = some user;
  action = "category.moved";
  subject_type = "category";
  subject_id = id;
  before = some (entry "parent_id" (id_or_null old_parent) empty);
  after = some (entry "parent_id" (id_or_null new_parent) empty);
  occurred_at = now;
}

unfoldable pub move_category : Uuid → Uuid → Option Uuid → Uuid → Instant → Tx (Unit {0})
unfolding parent_of list_subtree reparent_subtree
move_category tenant id new_parent_id user now = do
  c ← found (λ db. get tenant id db.categories) (not_found "Category not found.")
  parent ← parent_of "Target parent category not found." tenant new_parent_id
  subtree ← gets (λ db. list_subtree tenant id db.categories)
  subtree' ← lift (reparent_subtree c subtree parent now)
  modify (λ db. record db { categories = save_all subtree' db.categories })
  modify (record_audit (move_entry tenant user id c.parent_id new_parent_id now))
