-- ===== src/Entities/ContentDraft.antt =====
-- src/app/entities/content_draft.py: the copy for one (variant, channel, locale).
pub mod Lifecycle
use softbox_ai.Prelude.{
  String, Option, none, some, List, [], Bool, true, false, is_none, if◌then◌else◌,
}
use softbox_ai.Errors.{Result, ok, err, cannot, validation_error}
use softbox_ai.Ids.{Uuid, Instant}

pub data ContentDraftStatus : Type 0 where
  generated pending_approval approved rejected : ContentDraftStatus

pub value : ContentDraftStatus → String
value generated = "generated"
value pending_approval = "pending_approval"
value approved = "approved"
value rejected = "rejected"

pub record ContentDraft : Type 0 where
  pub id : Uuid
  pub tenant_id : Uuid
  pub variant_id : Uuid
  pub channel : String
  pub locale : String
  pub title : Option String
  pub body : String
  pub hashtags : List String
  pub cta : Option String
  pub alt_text : String
  pub model : String
  pub prompt_version : String
  pub status : ContentDraftStatus
  pub edited_by : Option Uuid
  pub approved_by : Option Uuid
  pub approved_at : Option Instant
  pub rejection_reason : Option String
  pub superseded_by : Option Uuid
  pub created_at : Instant
  pub updated_at : Instant

abbrev or_empty : Option (List String) → List String
or_empty none = []
or_empty (some tags) = tags

-- `new_id` is what `new_content_draft_id()` draws.
unfoldable pub create :
    (new_id tenant_id variant_id : Uuid)
    (channel locale body alt_text model prompt_version : String) (now : Instant)
    (title : Option String) (hashtags : Option (List String)) (cta : Option String)
    (edited_by : Option Uuid)
    → ContentDraft
create new_id tenant variant channel locale body alt model version now title hashtags cta editor =
    record {
      id = new_id;
      tenant_id = tenant;
      variant_id = variant;
      channel = channel;
      locale = locale;
      title = title;
      body = body;
      hashtags = or_empty hashtags;
      cta = cta;
      alt_text = alt;
      model = model;
      prompt_version = version;
      status = generated;
      edited_by = editor;
      approved_by = none;
      approved_at = none;
      rejection_reason = none;
      superseded_by = none;
      created_at = now;
      updated_at = now;
    }

abbrev pub is_generated : ContentDraftStatus → Bool
is_generated generated = true
is_generated _ = false

abbrev pub is_pending_approval : ContentDraftStatus → Bool
is_pending_approval pending_approval = true
is_pending_approval _ = false

abbrev pub is_approved : ContentDraftStatus → Bool
is_approved approved = true
is_approved _ = false

-- The message names the draft's id; an id has no text here.
unfoldable pub mark_superseded : Uuid → Instant → ContentDraft → Result ContentDraft
mark_superseded by now draft =
    if is_none draft.superseded_by
    then ok (record draft { superseded_by = some by; updated_at = now })
    else err (validation_error "Content draft is already superseded.")

unfoldable pub mark_pending_approval : Instant → ContentDraft → Result ContentDraft
mark_pending_approval now draft =
    if is_generated draft.status
    then ok (record draft { status = pending_approval; updated_at = now })
    else err (cannot "move to pending_approval" (value draft.status))

unfoldable pub approve : Option Uuid → Instant → ContentDraft → Result ContentDraft
approve by now draft =
    if is_pending_approval draft.status
    then ok (record draft {
      status = approved;
      approved_by = by;
      approved_at = some now;
      updated_at = now;
    })
    else err (cannot "approve" (value draft.status))

unfoldable pub reject : String → Instant → ContentDraft → Result ContentDraft
reject reason now draft =
    if is_pending_approval draft.status
    then ok (record draft { status = rejected; rejection_reason = some reason; updated_at = now })
    else err (cannot "reject" (value draft.status))
