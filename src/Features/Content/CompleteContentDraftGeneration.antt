-- ===== src/Features/Content/CompleteContentDraftGeneration.antt =====
-- src/app/features/content/complete_content_draft_generation.py and
-- fail_content_draft_generation.py, with `get_live` of
-- src/app/infrastructure/persistence/content_draft_repository.py.
use softbox_ai.Prelude.{
  String, Option, none, some, List, ◌<+>◌, Bool, ◌&&◌, ◌==◌, str_eq, is_none, find,
}
use softbox_ai.Errors.{not_found}
use softbox_ai.Ids.{Uuid, Instant}
use softbox_ai.Json.{entry, empty, text}
use softbox_ai.Table.{get, insert}
use softbox_ai.Entities.ContentDraft.{
  ContentDraft, create, value, mark_pending_approval, mark_superseded,
}
use softbox_ai.Services.TaskBackoff.{Jitter}
use softbox_ai.Services.CopyValidation.{GeneratedCopy, validate_copy}
use softbox_ai.TaskQueue.Store.{JobStatus}
use softbox_ai.Services.CopyPrompt.{copy_prompt_version}
use softbox_ai.UnitOfWork.{
  Tx, pure, lift, gets, found, modify, record_audit, AuditLogEntry, draft_row, product_row,
  variant_row, ◌>>=◌, ◌>>◌,
}
use softbox_ai.Features.Queue.{complete_job, fail_job}
use softbox_ai.Features.Content.Gate.{gated, save_draft}

abbrev pub is_live : Uuid → Uuid → String → String → ContentDraft → Bool
is_live tenant variant channel locale d =
    d.tenant_id == tenant
    && d.variant_id == variant
    && str_eq d.channel channel
    && str_eq d.locale locale
    && is_none d.superseded_by

unfoldable pub get_live : Uuid → Uuid → String → String → List ContentDraft → Option ContentDraft
get_live tenant variant channel locale drafts = find (is_live tenant variant channel locale) drafts

-- `if existing is not None`.
unfoldable pub supersede : Option ContentDraft → Uuid → Instant → Tx (Unit {0})
unfolding mark_superseded
supersede none by now = pure tt
supersede (some existing) by now = do
  existing' ← lift (mark_superseded by now existing)
  save_draft existing'

abbrev pub generation_entry : Uuid → ContentDraft → Instant → AuditLogEntry
generation_entry tenant draft now = record {
  tenant_id = tenant;
  actor_user_id = none;
  action = "content_draft.generated";
  subject_type = "content_draft";
  subject_id = draft.id;
  before = none;
  after = some (
      entry "channel" (text draft.channel)
        (entry "locale" (text draft.locale) (entry "status" (text (value draft.status)) empty)));
  occurred_at = now;
}

-- What follows the check of the copy.
unfoldable pub store_copy :
    Uuid → Uuid → Uuid → String → String → Uuid → GeneratedCopy → Instant → Tx (Option ContentDraft)
unfolding get_live create mark_pending_approval gated supersede
store_copy new_id tenant variant_id channel locale job_id copy now = do
  variant ←
      found (λ db. get tenant variant_id db.product_variants)
        (not_found "Product variant not found.")
  product ← found (λ db. get tenant variant.product_id db.products) (not_found "Product not found.")
  existing ← gets (λ db. get_live tenant variant_id channel locale db.content_drafts)
  let made =
      create new_id tenant variant_id channel locale copy.body copy.alt_text copy.model
        copy_prompt_version now copy.title (some copy.hashtags) copy.cta none
  pending ← lift (mark_pending_approval now made)
  draft ← gated tenant product pending now
  supersede existing draft.id now
  modify (λ db. record db { content_drafts = insert draft db.content_drafts })
  complete_job tenant job_id now
  modify (record_audit (generation_entry tenant draft now))
  pure (some draft)

-- `if violation is not None`: the job fails, and nothing is written.
unfoldable pub store_unless :
    Option String
    → Uuid
    → Uuid
    → Uuid
    → String
    → String
    → Uuid
    → GeneratedCopy
    → Instant
    → Jitter
    → Tx (Option ContentDraft)
unfolding store_copy
store_unless (some violation) new_id tenant variant_id channel locale job_id copy now scaled = do
  status ← fail_job tenant job_id violation now scaled
  pure none
store_unless none new_id tenant variant_id channel locale job_id copy now scaled =
    store_copy new_id tenant variant_id channel locale job_id copy now

unfoldable pub complete_content_draft_generation :
    (String → String)
    → Uuid
    → Uuid
    → Uuid
    → String
    → String
    → Uuid
    → GeneratedCopy
    → List String
    → Instant
    → Jitter
    → Tx (Option ContentDraft)
unfolding validate_copy store_unless
complete_content_draft_generation lower new_id tenant variant_id channel locale job_id copy claims
      now scaled =
    store_unless (validate_copy lower copy claims) new_id tenant variant_id channel locale job_id
      copy now scaled

unfoldable pub fail_content_draft_generation :
    Uuid → Uuid → String → String → Instant → Jitter → Tx JobStatus
fail_content_draft_generation tenant job_id code detail now scaled =
    fail_job tenant job_id (code <+> ": " <+> detail) now scaled
