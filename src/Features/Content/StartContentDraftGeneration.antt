-- ===== src/Features/Content/StartContentDraftGeneration.antt =====
-- src/app/features/content/start_content_draft_generation.py. The payload's values are handed on as
-- they are stored.
use softbox_ai.Prelude.{String, Option, none, some, List}
use softbox_ai.Errors.{Result, ok, err, require, key_error, not_found, validation_error}
use softbox_ai.Ids.{Uuid, Instant}
use softbox_ai.Json.{Json, JsonDict, uuid_at, value_at}
use softbox_ai.Table.{get}
use softbox_ai.Entities.ProductVariant.{ProductVariant}
use softbox_ai.Services.TaskBackoff.{Jitter}
use softbox_ai.Services.PromptComposition.{Texts, merge_attributes}
use softbox_ai.Services.CopyPrompt.{compose_copy_prompt}
use softbox_ai.Services.SettingsResolver.{resolve}
use softbox_ai.TaskQueue.Store.{TaskQueueJob}
use softbox_ai.UnitOfWork.{Tx, pure, lift, gets, found, variant_row, product_row, ◌>>=◌}
use softbox_ai.Features.Queue.{claim_job, fail_job}
use softbox_ai.Features.Content.Gate.{forbidden_claims_key, resolve_forbidden_claims}

abbrev pub job_type : String
job_type = "content_draft.generate_requested"

abbrev pub claimed_by : String
claimed_by = "copywriting-worker"

pub record ContentDraftGenerationContext : Type 0 where
  pub job_id : Uuid
  pub variant_id : Uuid
  pub channel : Json
  pub locale : Json
  pub prompt : String
  pub model : Json
  pub forbidden_claims : List String

-- `job.payload[name]`.
abbrev pub payload_value : String → JsonDict → Result Json
payload_value name payload = require (value_at name payload) (key_error name)

-- What follows the claims: a `ValidationError` fails the job, and nothing else is caught.
abbrev pub with_claims :
    Uuid
    → Uuid
    → Instant
    → Jitter
    → (List String → ContentDraftGenerationContext)
    → Result (List String)
    → Tx (Option ContentDraftGenerationContext)
with_claims tenant job_id now scaled context (ok claims) = pure (some (context claims))
with_claims tenant job_id now scaled context (err (validation_error message)) = do
  status ← fail_job tenant job_id message now scaled
  pure none
with_claims tenant job_id now scaled context (err e) = lift (err e)

unfoldable pub start_variant :
    Texts
    → Uuid
    → Instant
    → Jitter
    → TaskQueueJob
    → Uuid
    → Json
    → Json
    → Json
    → Option ProductVariant
    → Tx (Option ContentDraftGenerationContext)
unfolding resolve resolve_forbidden_claims merge_attributes compose_copy_prompt
start_variant py tenant now scaled job variant_id channel locale model none = do
  status ← fail_job tenant job.id "product variant not found" now scaled
  pure none
start_variant py tenant now scaled job variant_id channel locale model (some variant) = do
  product ← found (λ db. get tenant variant.product_id db.products) (not_found "Product not found.")
  raw ← resolve tenant forbidden_claims_key (some product.category_id) (some product.id)
  with_claims tenant job.id now scaled
      (λ claims. record {
        job_id = job.id;
        variant_id = variant_id;
        channel = channel;
        locale = locale;
        prompt =
            compose_copy_prompt py channel locale
              (merge_attributes product.attributes variant.attributes);
        model = model;
        forbidden_claims = claims;
      })
      (resolve_forbidden_claims raw)

unfoldable pub start_claimed :
    Texts
    → Uuid
    → Instant
    → Jitter
    → Option TaskQueueJob
    → Tx (Option ContentDraftGenerationContext)
unfolding start_variant
start_claimed py tenant now scaled none = pure none
start_claimed py tenant now scaled (some job) = do
  variant_id ← lift (uuid_at "variant_id" job.payload)
  channel ← lift (payload_value "channel" job.payload)
  locale ← lift (payload_value "locale" job.payload)
  model ← lift (payload_value "model" job.payload)
  variant ← gets (λ db. get tenant variant_id db.product_variants)
  start_variant py tenant now scaled job variant_id channel locale model variant

unfoldable pub start_content_draft_generation :
    Texts → Uuid → Instant → Jitter → Tx (Option ContentDraftGenerationContext)
unfolding start_claimed
start_content_draft_generation py tenant now scaled = do
  job ← claim_job tenant claimed_by job_type now
  start_claimed py tenant now scaled job
