-- ===== src/Entities/ContentDraft/Lifecycle.antt =====
-- The life of a content draft, src/app/entities/content_draft.py, under any sequence of calls.
use softbox_ai.Prelude.{◌≡◌, ◌≢◌, ◌∙◌, String, Option, List, refl, none, arith}
use softbox_ai.Errors.{Result, ok}
use softbox_ai.Ids.{Uuid, Instant}
use softbox_ai.Entities.History.{history, history_inv}
use softbox_ai.Entities.ContentDraft.{
  ContentDraft, approved, rejected, mark_superseded, mark_pending_approval, approve, reject,
}

pub data Call : Type 0 where
  supersede : Uuid → Instant → Call
  submit : Instant → Call
  accept : Option Uuid → Instant → Call
  decline : String → Instant → Call

pub call : Call → ContentDraft → Result ContentDraft
unfolding mark_superseded mark_pending_approval approve reject
call (supersede by now) s = mark_superseded by now s
call (submit now) s = mark_pending_approval now s
call (accept by now) s = approve by now s
call (decline reason now) s = reject reason now s

-- What a publication that names this draft relies on.
pub record Copy : Type 0 where
  pub id : Uuid
  pub variant_id : Uuid
  pub channel : String
  pub locale : String
  pub title : Option String
  pub body : String
  pub hashtags : List String
  pub cta : Option String
  pub alt_text : String
  pub edited_by : Option Uuid

abbrev pub copy : ContentDraft → Copy
copy s = record {
  id = s.id;
  variant_id = s.variant_id;
  channel = s.channel;
  locale = s.locale;
  title = s.title;
  body = s.body;
  hashtags = s.hashtags;
  cta = s.cta;
  alt_text = s.alt_text;
  edited_by = s.edited_by;
}

pub record IsConsistent (s : ContentDraft) : Type 0 where
  pub approval : s.status ≡ approved → s.approved_at ≢ none
  pub no_approval : s.status ≢ approved → (s.approved_at ≡ none) × (s.approved_by ≡ none)
  pub reason : s.status ≡ rejected → s.rejection_reason ≢ none
  pub no_reason : s.status ≢ rejected → s.rejection_reason ≡ none

copy-call : (m : Call) (s s' : ContentDraft) → call m s ≡ ok s' → copy s' ≡ copy s
unfolding call
copy-call m s s' h = ground arith

call-IsConsistent :
    (m : Call) (s s' : ContentDraft) → IsConsistent s → call m s ≡ ok s' → IsConsistent s'
unfolding call
call-IsConsistent m s s' c h = ground arith

-- No sequence of calls edits a draft's text, and along it the approval and rejection fields agree
-- with the status if they did before.
pub history-copy :
    (s : ContentDraft) (ms : List Call)
    → IsConsistent s
    → (copy (history call s ms) ≡ copy s) × IsConsistent (history call s ms)
history-copy s ms c = (
  history_inv call (λ t. copy t ≡ copy s) (λ m t t' e h. copy-call m t t' h ∙ e) s ms refl,
  history_inv call IsConsistent call-IsConsistent s ms c,
)
