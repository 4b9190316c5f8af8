-- ===== src/Features/Taxonomy/CreateCategory.antt =====
-- src/app/features/taxonomy/create_category.py
use softbox_ai.Prelude.{ℕ, String, Option, none, some}
use softbox_ai.Errors.{not_found}
use softbox_ai.Ids.{Uuid, Instant}
use softbox_ai.Json.{Json, entry, empty, text, uuid, null}
use softbox_ai.Table.{get, insert}
use softbox_ai.Entities.Category.{Category, create}
use softbox_ai.UnitOfWork.{
  Tx, pure, found, modify, record_audit, AuditLogEntry, category_row, ◌>>=◌, ◌>>◌,
}

-- The parent that the caller names, which has to be stored.
unfoldable pub parent_of : String → Uuid → Option Uuid → Tx (Option Category)
parent_of message tenant none = pure none
parent_of message tenant (some id) = do
  parent ← found (λ db. get tenant id db.categories) (not_found message)
  pure (some parent)

abbrev pub id_or_null : Option Uuid → Json
id_or_null none = null
id_or_null (some id) = uuid id

abbrev pub creation_entry :
    Uuid → Uuid → Uuid → String → String → Option Uuid → Instant → AuditLogEntry
creation_entry tenant user id key name parent now = record {
  tenant_id = tenant;
  actor_user_id = some user;
  action = "category.created";
  subject_type = "category";
  subject_id = id;
  before = none;
  after = some (
      entry "key" (text key)
        (entry "name" (text name) (entry "parent_id" (id_or_null parent) empty)));
  occurred_at = now;
}

-- The unique indexes of the table are not part of this model: a duplicate key or slug is let in.
unfoldable pub create_category :
    (new_id tenant_id : Uuid) (key name slug : String) (parent_id : Option Uuid)
    (description : Option String) (position : ℕ) (actor_user_id : Uuid) (now : Instant)
    → Tx Category
unfolding parent_of create
create_category new_id tenant key name slug parent_id description position user now = do
  parent ← parent_of "Parent category not found." tenant parent_id
  let c = create new_id tenant key name slug parent now description position
  modify (λ db. record db { categories = insert c db.categories })
  modify (record_audit (creation_entry tenant user c.id key name parent_id now))
  pure c
