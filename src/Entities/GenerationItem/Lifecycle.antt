-- ===== src/Entities/GenerationItem/Lifecycle.antt =====
-- The life of a generation item, src/app/entities/generation_item.py, under any sequence of calls; the
-- edges are those of the state diagram in docs/DIAGRAMS.md.
use softbox_ai.Prelude.{ℕ, String, List, ◌≡◌, ◌≢◌, ◌∙◌, refl, none, arith}
use softbox_ai.Errors.{Result, ok}
use softbox_ai.Ids.{Uuid, Instant}
use softbox_ai.Json.{JsonDict}
use softbox_ai.Entities.History.{history, history_inv}
use softbox_ai.Entities.GenerationItem.{
  GenerationItem, GenerationItemStatus, pending, running, succeeded, failed, dead, create,
  mark_running, mark_succeeded, mark_failed, mark_dead,
}

-- A call of one of the mutating methods, with its arguments.
pub data Call : Type 0 where
  run die : Call
  succeed : Uuid → ℕ → ℕ → Call
  fail : String → String → Call

unfoldable pub call : Call → GenerationItem → Result GenerationItem
unfolding mark_running mark_succeeded mark_failed mark_dead
call run item = mark_running item
call die item = mark_dead item
call (succeed asset cost latency) item = mark_succeeded asset cost latency item
call (fail code detail) item = mark_failed code detail item

-- The diagram.
infix 40 ◌⟶◌
pub data ◌⟶◌ : GenerationItemStatus → GenerationItemStatus → Type 0 where
  claim : pending ⟶ running
  done : running ⟶ succeeded
  retryable : running ⟶ failed
  backoff : failed ⟶ running
  exhausted : failed ⟶ dead

-- The facts that an attempt's row records about how it was made.
pub record Lineage : Type 0 where
  pub id : Uuid
  pub tenant_id : Uuid
  pub request_id : Uuid
  pub catalog_image_slot_id : Uuid
  pub template_id : Uuid
  pub attempt_no : ℕ
  pub provider : String
  pub model : String
  pub model_params : JsonDict
  pub seed : ℕ
  pub prompt_rendered : String
  pub prompt_version : String
  pub input_asset_ids : List Uuid
  pub created_at : Instant

abbrev pub lineage : GenerationItem → Lineage
lineage item = record {
  id = item.id;
  tenant_id = item.tenant_id;
  request_id = item.request_id;
  catalog_image_slot_id = item.catalog_image_slot_id;
  template_id = item.template_id;
  attempt_no = item.attempt_no;
  provider = item.provider;
  model = item.model;
  model_params = item.model_params;
  seed = item.seed;
  prompt_rendered = item.prompt_rendered;
  prompt_version = item.prompt_version;
  input_asset_ids = item.input_asset_ids;
  created_at = item.created_at;
}

-- What the status says about the output: an image only when it succeeded, with its cost and time;
-- an error recorded whenever the attempt stands failed or dead.
pub record IsConsistent (item : GenerationItem) : Type 0 where
  pub output : item.output_asset_id ≢ none → item.status ≡ succeeded
  pub delivered :
      item.status ≡ succeeded
      → (item.output_asset_id ≢ none) × (item.cost_micros ≢ none) × (item.latency_ms ≢ none)
  pub explained : item.status ≡ failed → item.error_code ≢ none
  pub buried : item.status ≡ dead → item.error_code ≢ none

lineage-call : (m : Call) (s s' : GenerationItem) → call m s ≡ ok s' → lineage s' ≡ lineage s
unfolding call
lineage-call m s s' h = ground arith

call-IsConsistent :
    (m : Call) (s s' : GenerationItem) → IsConsistent s → call m s ≡ ok s' → IsConsistent s'
unfolding call
call-IsConsistent m s s' c h = ground arith

-- A status is left exactly along the edges of the diagram: every call that returns follows one.
pub call-⟶ : (m : Call) (s s' : GenerationItem) → call m s ≡ ok s' → s.status ⟶ s'.status
unfolding call
call-⟶ m s s' h = grind (arith, claim, done, retryable, backoff, exhausted)

-- A new item is consistent.
pub create-IsConsistent :
    (i t r s c n : ℕ) (p m : String) (ps : JsonDict) (seed : ℕ) (pr pv : String)
    (assets : List Uuid) (now : Instant)
    → IsConsistent (create i t r s c n p m ps seed pr pv assets now)
unfolding create
create-IsConsistent i t r s c n p m ps seed pr pv assets now = ground arith

-- Whatever methods are called on an item, in any order and with any arguments, the facts of its
-- lineage stay as they were, and its outcome fields agree with its status if they did before.
pub history-IsConsistent :
    (s : GenerationItem) (ms : List Call)
    → IsConsistent s
    → (lineage (history call s ms) ≡ lineage s) × IsConsistent (history call s ms)
history-IsConsistent s ms c = (
  history_inv call (λ t. lineage t ≡ lineage s) (λ m t t' e h. lineage-call m t t' h ∙ e) s ms refl,
  history_inv call IsConsistent call-IsConsistent s ms c,
)
