-- ===== src/Features/Content/EditContentDraft.antt =====
-- src/app/features/content/edit_content_draft.py
pub mod Replaces
use softbox_ai.Prelude.{String, Option, none, some, List, Bool, is_none}
use softbox_ai.Errors.{Result, ok, err, guard, not_found, validation_error}
use softbox_ai.Ids.{Uuid, Instant}
use softbox_ai.Json.{entry, empty, text}
use softbox_ai.Table.{get, insert}
use softbox_ai.Entities.ContentDraft.{
  ContentDraft, create, value, mark_pending_approval, mark_superseded,
}
use softbox_ai.Services.CopyValidation.{GeneratedCopy, validate_copy}
use softbox_ai.Services.SettingsResolver.{resolve}
use softbox_ai.UnitOfWork.{
  Tx, pure, lift, found, modify, record_audit, AuditLogEntry, draft_row, product_row, variant_row,
  ◌>>=◌, ◌>>◌,
}
use softbox_ai.Features.Content.Gate.{
  forbidden_claims_key, resolve_forbidden_claims, gated, save_draft,
}

-- The texts that the editor hands in.
pub record Edit : Type 0 where
  pub title : Option String
  pub body : String
  pub hashtags : List String
  pub cta : Option String
  pub alt_text : String

abbrev pub candidate : Edit → ContentDraft → GeneratedCopy
candidate edit draft = record {
  title = edit.title;
  body = edit.body;
  hashtags = edit.hashtags;
  cta = edit.cta;
  alt_text = edit.alt_text;
  model = draft.model;
  cost_micros = 0;
  latency_ms = 0;
}

-- `if violation is not None: raise`.
abbrev pub no_violation : Option String → Result (Unit {0})
no_violation none = ok tt
no_violation (some violation) = err (validation_error violation)

abbrev pub edit_entry : Uuid → Uuid → ContentDraft → ContentDraft → Instant → AuditLogEntry
edit_entry tenant user existing draft now = record {
  tenant_id = tenant;
  actor_user_id = some user;
  action = "content_draft.edited";
  subject_type = "content_draft";
  subject_id = draft.id;
  before =
      some
        (entry "status" (text (value existing.status)) (entry "body" (text existing.body) empty));
  after = some (entry "status" (text (value draft.status)) (entry "body" (text draft.body) empty));
  occurred_at = now;
}

unfoldable pub edit_content_draft :
    (String → String) → Uuid → Uuid → Uuid → Uuid → Edit → Instant → Tx ContentDraft
unfolding resolve resolve_forbidden_claims validate_copy create mark_pending_approval gated
    mark_superseded
edit_content_draft lower new_id tenant id user edit now = do
  existing ← found (λ db. get tenant id db.content_drafts) (not_found "Content draft not found.")
  lift (
      guard (is_none existing.superseded_by)
        (validation_error "Cannot edit a superseded content draft; edit the live draft instead."))
  variant ←
      found (λ db. get tenant existing.variant_id db.product_variants)
        (not_found "Product variant not found.")
  product ← found (λ db. get tenant variant.product_id db.products) (not_found "Product not found.")
  raw ← resolve tenant forbidden_claims_key (some product.category_id) (some product.id)
  claims ← lift (resolve_forbidden_claims raw)
  lift (no_violation (validate_copy lower (candidate edit existing) claims))
  let made =
      create new_id tenant existing.variant_id existing.channel existing.locale edit.body
        edit.alt_text existing.model existing.prompt_version now edit.title (some edit.hashtags)
        edit.cta (some user)
  pending ← lift (mark_pending_approval now made)
  draft ← gated tenant product pending now
  existing' ← lift (mark_superseded draft.id now existing)
  save_draft existing'
  modify (λ db. record db { content_drafts = insert draft db.content_drafts })
  modify (record_audit (edit_entry tenant user existing' draft now))
  pure draft
