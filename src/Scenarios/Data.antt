-- ===== src/Scenarios/Data.antt =====
-- The rows of one small tenant, number 1.
use softbox_ai.Prelude.{String, none, some, [], ◌∷◌, true, false}
use softbox_ai.Ids.{Uuid}
use softbox_ai.Json.{JsonDict, entry, empty, uuid}
use softbox_ai.Entities.GenerationItem
use softbox_ai.Entities.GenerationItem.{GenerationItem, GenerationItemStatus}
use softbox_ai.Entities.GenerationRequest
use softbox_ai.Entities.GenerationRequest.{GenerationRequest}
use softbox_ai.Entities.Publication
use softbox_ai.Entities.Publication.{Publication, PublicationStatus}
use softbox_ai.Entities.ContentDraft
use softbox_ai.Entities.ContentDraft.{ContentDraft}
use softbox_ai.Entities.SpecSnapshot
use softbox_ai.Entities.SpecSnapshot.{CategorySpecVersion}
use softbox_ai.Entities.Product
use softbox_ai.Entities.ProductVariant.{ProductVariant}
use softbox_ai.Entities.SocialAccount
use softbox_ai.Entities.SocialAccount.{SocialAccount}
use softbox_ai.Services.TaskBackoff.{Jitter}
use softbox_ai.TaskQueue.Store.{TaskQueueJob, JobStatus}
use softbox_ai.Quota.Reservations.{QuotaReservation}
use softbox_ai.UnitOfWork.{Db}

-- A draw of `random.random()` that gives no delay at all.
abbrev pub no_delay : Jitter
no_delay c = 0

abbrev pub job_of : Uuid → String → JsonDict → JobStatus → TaskQueueJob
job_of i type payload status = record {
  id = i;
  tenant_id = 1;
  job_type = type;
  payload = payload;
  status = status;
  attempts = 1;
  max_attempts = 5;
  run_at = 3;
  claimed_at = some 4;
  claimed_by = none;
  last_error = none;
  created_at = 2;
  updated_at = 2;
}

-- The job of the render of item 10, and one that is stuck.
abbrev pub render_job : TaskQueueJob
render_job =
    job_of 100 "generation_item.render_requested" (entry "generation_item_id" (uuid 10) empty)
      JobStatus.pending

abbrev pub stuck_job : TaskQueueJob
stuck_job = job_of 101 "publication.publish_requested" empty JobStatus.running

abbrev pub item_of : GenerationItemStatus → GenerationItem
item_of status = record {
  id = 10;
  tenant_id = 1;
  request_id = 20;
  catalog_image_slot_id = 30;
  template_id = 40;
  attempt_no = 1;
  status = status;
  provider = "fake";
  model = "m";
  model_params = empty;
  seed = 7;
  prompt_rendered = "a red chair";
  prompt_version = "1";
  input_asset_ids = [];
  output_asset_id = none;
  cost_micros = none;
  latency_ms = none;
  error_code = none;
  error_detail = none;
  created_at = 2;
}

abbrev pub running_item : GenerationItem
running_item = item_of GenerationItem.running

abbrev pub succeeded_item : GenerationItem
succeeded_item = record running_item {
  status = GenerationItem.succeeded;
  output_asset_id = some 50;
  cost_micros = some 900;
  latency_ms = some 80;
}

abbrev pub running_request : GenerationRequest
running_request = record {
  id = 20;
  tenant_id = 1;
  product_id = 60;
  variant_id = 61;
  spec_version_id = 62;
  status = GenerationRequest.running;
  settings_snapshot = empty;
  quota_reservation_id = some 70;
  requested_by = 5;
  created_at = 2;
  completed_at = none;
}

-- Slot 30 has a succeeded attempt, slot 31 never had one.
abbrev pub spec_version : CategorySpecVersion
spec_version = record {
  id = 62;
  tenant_id = 1;
  category_id = 63;
  version = 1;
  status = SpecSnapshot.published;
  snapshot = record {
    attribute_definitions = [];
    variant_axes = [];
    input_image_slots = [];
    catalog_image_slots =
        record { id = 30; key = "front"; is_required = true; input_requirements = [] }
        ∷ record { id = 31; key = "back"; is_required = true; input_requirements = [] }
        ∷ record { id = 32; key = "side"; is_required = false; input_requirements = [] }
        ∷ [];
  };
  change_summary = none;
  published_by = 5;
  published_at = 1;
}

abbrev pub reservation : QuotaReservation
reservation = record {
  id = 70;
  tenant_id = 1;
  period = "2026-01";
  metric = "generation.images";
  limit_value = 10;
  reserved = 2;
  committed = 0;
}

abbrev pub publication_of : PublicationStatus → Publication
publication_of status = record {
  id = 80;
  tenant_id = 1;
  variant_id = 61;
  channel_id = 90;
  content_draft_id = none;
  idempotency_key = 81;
  status = status;
  due_at = 3;
  published_at = none;
  external_post_id = none;
  permalink = none;
  payload = empty;
  attempts = 0;
  last_error = none;
  metrics = none;
  metrics_fetched_at = none;
  created_at = 2;
  updated_at = 2;
}

abbrev pub approved_draft : ContentDraft
approved_draft = record {
  id = 95;
  tenant_id = 1;
  variant_id = 61;
  channel = "instagram";
  locale = "en";
  title = none;
  body = "A chair.";
  hashtags = [];
  cta = none;
  alt_text = "A red chair.";
  model = "m";
  prompt_version = "1";
  status = ContentDraft.approved;
  edited_by = none;
  approved_by = some 5;
  approved_at = some 2;
  rejection_reason = none;
  superseded_by = none;
  created_at = 1;
  updated_at = 2;
}

abbrev pub variant : ProductVariant
variant = record {
  id = 61;
  tenant_id = 1;
  product_id = 60;
  sku = none;
  axis_values = [];
  attributes = empty;
  status = Product.ready;
  is_default = true;
  position = 0;
  created_by = 5;
  created_at = 1;
  updated_at = 1;
}

abbrev pub channel : SocialAccount
channel = record {
  id = 90;
  tenant_id = 1;
  provider = "instagram";
  external_account_id = "shop";
  display_name = "Shop";
  credentials_encrypted = none;
  encryption_key_id = none;
  scopes = [];
  access_expires_at = none;
  refresh_expires_at = none;
  status = SocialAccount.connected;
  last_error = none;
  created_at = 1;
  updated_at = 1;
}

abbrev pub shop : Db
shop = record {
  task_queue = render_job ∷ stuck_job ∷ [];
  generation_items = running_item ∷ [];
  generation_requests = running_request ∷ [];
  catalog_images = [];
  content_drafts = approved_draft ∷ [];
  publications = publication_of Publication.scheduled ∷ [];
  category_spec_versions = spec_version ∷ [];
  assets = [];
  product_variants = variant ∷ [];
  social_accounts = channel ∷ [];
  quota_reservations = reservation ∷ [];
  audit_log = [];
  products = [];
  product_input_images = [];
  catalog_templates = [];
  categories = [];
  settings = [];
  outbox_events = [];
}
