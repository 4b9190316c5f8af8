-- ===== src/Entities/Publication.antt =====
-- src/app/entities/publication.py: one post of one variant to one channel account.
pub mod Lifecycle
use softbox_ai.Prelude.{ℕ, ◌+◌, String, Option, none, some, Bool, true, false, ◌||◌, if◌then◌else◌}
use softbox_ai.Errors.{Result, ok, err, cannot}
use softbox_ai.Ids.{Uuid, Instant}
use softbox_ai.Json.{JsonDict}

pub data PublicationStatus : Type 0 where
  scheduled dispatching published failed dead cancelled : PublicationStatus

pub value : PublicationStatus → String
value scheduled = "scheduled"
value dispatching = "dispatching"
value published = "published"
value failed = "failed"
value dead = "dead"
value cancelled = "cancelled"

pub record Publication : Type 0 where
  pub id : Uuid
  pub tenant_id : Uuid
  pub variant_id : Uuid
  pub channel_id : Uuid
  pub content_draft_id : Option Uuid
  pub idempotency_key : Uuid
  pub status : PublicationStatus
  pub due_at : Instant
  pub published_at : Option Instant
  pub external_post_id : Option String
  pub permalink : Option String
  pub payload : JsonDict
  pub attempts : ℕ
  pub last_error : Option String
  pub metrics : Option JsonDict
  pub metrics_fetched_at : Option Instant
  pub created_at : Instant
  pub updated_at : Instant

abbrev or_now : Option Instant → Instant → Instant
or_now none now = now
or_now (some due) now = due

-- `new_id` and `new_key` are what `new_publication_id()` and `uuid4()` draw; the key is the hex of
-- the second, kept as its number.
unfoldable pub create :
    (new_id new_key tenant_id variant_id channel_id : Uuid) (content_draft_id : Option Uuid)
    (payload : JsonDict) (due_at : Option Instant) (now : Instant)
    → Publication
create new_id new_key tenant variant channel draft payload due now = record {
  id = new_id;
  tenant_id = tenant;
  variant_id = variant;
  channel_id = channel;
  content_draft_id = draft;
  idempotency_key = new_key;
  status = scheduled;
  due_at = or_now due now;
  published_at = none;
  external_post_id = none;
  permalink = none;
  payload = payload;
  attempts = 0;
  last_error = none;
  metrics = none;
  metrics_fetched_at = none;
  created_at = now;
  updated_at = now;
}

abbrev pub is_scheduled : PublicationStatus → Bool
is_scheduled scheduled = true
is_scheduled _ = false

abbrev pub is_dispatching : PublicationStatus → Bool
is_dispatching dispatching = true
is_dispatching _ = false

abbrev pub is_failed : PublicationStatus → Bool
is_failed failed = true
is_failed _ = false

abbrev pub is_published : PublicationStatus → Bool
is_published published = true
is_published _ = false

unfoldable pub defer_dispatch : Instant → Instant → Publication → Result Publication
defer_dispatch until now p =
    if is_scheduled p.status
    then ok (record p { due_at = until; updated_at = now })
    else err (cannot "defer dispatch" (value p.status))

unfoldable pub mark_dispatching : Instant → Publication → Result Publication
mark_dispatching now p =
    if is_scheduled p.status || is_failed p.status
    then ok (record p { status = dispatching; updated_at = now })
    else err (cannot "start dispatching" (value p.status))

unfoldable pub mark_published : String → Option String → Instant → Publication → Result Publication
mark_published post link now p =
    if is_dispatching p.status
    then ok (record p {
      status = published;
      external_post_id = some post;
      permalink = link;
      published_at = some now;
      updated_at = now;
    })
    else err (cannot "publish" (value p.status))

unfoldable pub record_attempt_failure : String → Bool → Instant → Publication → Result Publication
record_attempt_failure error terminal now p =
    if is_dispatching p.status
    then ok (record p {
      attempts = p.attempts + 1;
      last_error = some error;
      status = if terminal then dead else failed;
      updated_at = now;
    })
    else err (cannot "fail" (value p.status))

unfoldable pub defer : String → Instant → Instant → Publication → Result Publication
defer reason due now p =
    if is_dispatching p.status
    then ok
        (record p { last_error = some reason; status = scheduled; due_at = due; updated_at = now })
    else err (cannot "defer" (value p.status))

unfoldable pub cancel : Instant → Publication → Result Publication
cancel now p =
    if is_scheduled p.status
    then ok (record p { status = cancelled; updated_at = now })
    else err (cannot "cancel" (value p.status))

unfoldable pub mark_metrics_fetch_attempted : Instant → Publication → Result Publication
mark_metrics_fetch_attempted now p =
    if is_published p.status
    then ok (record p { metrics_fetched_at = some now; updated_at = now })
    else err (cannot "fetch metrics" (value p.status))

unfoldable pub record_metrics : JsonDict → Instant → Publication → Result Publication
record_metrics metrics now p =
    if is_published p.status
    then ok (record p { metrics = some metrics; updated_at = now })
    else err (cannot "fetch metrics" (value p.status))
