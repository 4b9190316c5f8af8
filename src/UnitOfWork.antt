-- ===== src/UnitOfWork.antt =====
-- src/app/infrastructure/persistence/unit_of_work.py: the tables behind one transaction, and the
-- transaction itself. A use case is an action over the tables; an action that raises is rolled back.
use softbox_ai.Prelude.{String, Option, none, List, [], ◌∷◌, ◌++◌}
use softbox_ai.Errors.{AppError, Result, ok, err, require}
use softbox_ai.Ids.{Uuid, Instant}
use softbox_ai.Json.{JsonDict}
use softbox_ai.Table.{Row}
use softbox_ai.Entities.GenerationItem.{GenerationItem}
use softbox_ai.Entities.GenerationRequest.{GenerationRequest}
use softbox_ai.Entities.CatalogImage.{CatalogImage}
use softbox_ai.Entities.ContentDraft.{ContentDraft}
use softbox_ai.Entities.Publication.{Publication}
use softbox_ai.Entities.SpecSnapshot.{CategorySpecVersion}
use softbox_ai.Entities.Asset.{Asset}
use softbox_ai.Entities.ProductVariant.{ProductVariant}
use softbox_ai.Entities.SocialAccount.{SocialAccount}
use softbox_ai.Entities.Product.{Product}
use softbox_ai.Entities.ProductInputImage.{ProductInputImage}
use softbox_ai.Entities.CatalogTemplate.{CatalogTemplate}
use softbox_ai.Entities.Category.{Category}
use softbox_ai.Entities.Setting.{Setting}
use softbox_ai.TaskQueue.Store.{Jobs}
use softbox_ai.Quota.Reservations.{Rows}

instance abbrev pub item_row : Row GenerationItem
item_row = record { key = λ r. r.id; tenant = λ r. r.tenant_id }

instance abbrev pub request_row : Row GenerationRequest
request_row = record { key = λ r. r.id; tenant = λ r. r.tenant_id }

instance abbrev pub image_row : Row CatalogImage
image_row = record { key = λ r. r.id; tenant = λ r. r.tenant_id }

instance abbrev pub draft_row : Row ContentDraft
draft_row = record { key = λ r. r.id; tenant = λ r. r.tenant_id }

instance abbrev pub publication_row : Row Publication
publication_row = record { key = λ r. r.id; tenant = λ r. r.tenant_id }

instance abbrev pub spec_version_row : Row CategorySpecVersion
spec_version_row = record { key = λ r. r.id; tenant = λ r. r.tenant_id }

instance abbrev pub asset_row : Row Asset
asset_row = record { key = λ r. r.id; tenant = λ r. r.tenant_id }

instance abbrev pub variant_row : Row ProductVariant
variant_row = record { key = λ r. r.id; tenant = λ r. r.tenant_id }

instance abbrev pub account_row : Row SocialAccount
account_row = record { key = λ r. r.id; tenant = λ r. r.tenant_id }

instance abbrev pub product_row : Row Product
product_row = record { key = λ r. r.id; tenant = λ r. r.tenant_id }

instance abbrev pub input_image_row : Row ProductInputImage
input_image_row = record { key = λ r. r.id; tenant = λ r. r.tenant_id }

instance abbrev pub template_row : Row CatalogTemplate
template_row = record { key = λ r. r.id; tenant = λ r. r.tenant_id }

instance abbrev pub category_row : Row Category
category_row = record { key = λ r. r.id; tenant = λ r. r.tenant_id }

-- A row of `audit_log`; the entry's own id and `ip` are not kept.
pub record AuditLogEntry : Type 0 where
  pub tenant_id : Uuid
  pub actor_user_id : Option Uuid
  pub action : String
  pub subject_type : String
  pub subject_id : Uuid
  pub before : Option JsonDict
  pub after : Option JsonDict
  pub occurred_at : Instant

-- A row of `outbox_events`.
pub record OutboxEvent : Type 0 where
  pub id : Uuid
  pub tenant_id : Uuid
  pub event_type : String
  pub payload : JsonDict
  pub created_at : Instant
  pub published_at : Option Instant

instance abbrev pub event_row : Row OutboxEvent
event_row = record { key = λ r. r.id; tenant = λ r. r.tenant_id }

-- The tables that the modelled use cases read and write.
pub record Db : Type 0 where
  pub task_queue : Jobs
  pub generation_items : List GenerationItem
  pub generation_requests : List GenerationRequest
  pub catalog_images : List CatalogImage
  pub content_drafts : List ContentDraft
  pub publications : List Publication
  pub category_spec_versions : List CategorySpecVersion
  pub assets : List Asset
  pub product_variants : List ProductVariant
  pub social_accounts : List SocialAccount
  pub quota_reservations : Rows
  pub products : List Product
  pub product_input_images : List ProductInputImage
  pub catalog_templates : List CatalogTemplate
  pub categories : List Category
  pub settings : List Setting
  pub outbox_events : List OutboxEvent
  pub audit_log : List AuditLogEntry

-- An action inside a transaction: it raises, or returns with the tables as it leaves them.
abbrev pub Tx : Type 0 → Type 0
Tx A = Db → Result (A × Db)

abbrev pub pure : {A : Type 0} → A → Tx A
pure a db = ok (a, db)

abbrev pub proceed : {A B : Type 0} → (A → Tx B) → Result (A × Db) → Result (B × Db)
proceed f (ok (a, db)) = f a db
proceed f (err e) = err e

infixl 5 ◌>>=◌ ◌>>◌
abbrev pub ◌>>=◌ : {A B : Type 0} → Tx A → (A → Tx B) → Tx B
◌>>=◌ m f db = proceed f (m db)

abbrev pub ◌>>◌ : {B : Type 0} → Tx (Unit {0}) → Tx B → Tx B
m >> k = m >>= λ _. k

abbrev pub with_db : {A : Type 0} → Db → Result A → Result (A × Db)
with_db db (ok a) = ok (a, db)
with_db db (err e) = err e

-- A step that may raise and touches no table.
abbrev pub lift : {A : Type 0} → Result A → Tx A
lift r db = with_db db r

-- A read, and a write.
abbrev pub gets : {A : Type 0} → (Db → A) → Tx A
gets f db = ok (f db, db)

-- Reads that may raise.
abbrev pub read : {A : Type 0} → (Db → Result A) → Tx A
read f db = with_db db (f db)

abbrev pub modify : (Db → Db) → Tx (Unit {0})
modify f db = ok (tt, f db)

-- A read of a row that the code cannot do without.
abbrev pub found : {A : Type 0} → (Db → Option A) → AppError → Tx A
found f e db = with_db db (require (f db) e)

-- `async with uow_factory(tenant_id) as uow`: commit on return, rollback on an exception, which goes
-- on to the caller.
abbrev pub close : {A : Type 0} → Db → Result (A × Db) → Result A × Db
close db (ok (a, db')) = (ok a, db')
close db (err e) = (err e, db)

unfoldable pub transact : {A : Type 0} → Tx A → Db → Result A × Db
transact m db = close db (m db)

abbrev pub record_audit : AuditLogEntry → Db → Db
record_audit entry db = record db { audit_log = db.audit_log ++ entry ∷ [] }

-- `outbox_events.add`; `new_id` is what `uuid4()` draws.
abbrev pub add_event : Uuid → Uuid → String → JsonDict → Instant → Db → Db
add_event new_id tenant type payload now db = record db {
  outbox_events =
      db.outbox_events
      ++ (record {
        id = new_id;
        tenant_id = tenant;
        event_type = type;
        payload = payload;
        created_at = now;
        published_at = none;
      })
        ∷ [];
}
