-- ===== src/Entities/CatalogTemplate/Lifecycle.antt =====
-- The life of a template, src/app/entities/catalog_template.py, under any sequence of calls.
use softbox_ai.Prelude.{
  ℕ, ◌≡◌, ◌≢◌, ◌⊎◌, Bool, true, false, String, Option, List, refl, none, arith,
}
use softbox_ai.Errors.{Result, ok}
use softbox_ai.Ids.{Uuid, Instant}
use softbox_ai.Json.{JsonDict}
use softbox_ai.Entities.History.{history, history_inv}
use softbox_ai.Entities.CatalogTemplate.{
  CatalogTemplate, TemplateStatus, analysed, analysis_failed, invalid, archived, start_analysing,
  mark_analysed, mark_invalid, mark_analysis_failed, retry_analysis, archive,
}

pub data Call : Type 0 where
  start retry retire : Instant → Call
  finish : String → Option JsonDict → Option String → Instant → Call
  refuse fail : String → Instant → Call

pub call : Call → CatalogTemplate → Result CatalogTemplate
unfolding start_analysing mark_analysed mark_invalid mark_analysis_failed retry_analysis archive
call (start now) s = start_analysing now s
call (retry now) s = retry_analysis now s
call (retire now) s = archive now s
call (finish prompt analysis model now) s = mark_analysed prompt analysis model now s
call (refuse reason now) s = mark_invalid reason now s
call (fail reason now) s = mark_analysis_failed reason now s

abbrev pub is_finished : TemplateStatus → Bool
is_finished analysed = true
is_finished archived = true
is_finished _ = false

-- A finished template has a prompt and its time; an error is recorded on exactly the failed and
-- the invalid ones.
record IsExplained (s : CatalogTemplate) : Type 0 where
  pub finished : is_finished s.status ≡ true → (s.prompt_template ≢ none) × (s.analysed_at ≢ none)
  pub unfinished : is_finished s.status ≡ false → s.analysed_at ≡ none
  pub error : (s.status ≡ analysis_failed) ⊎ (s.status ≡ invalid) → s.analysis_error ≢ none
  pub no_error : s.status ≢ analysis_failed → s.status ≢ invalid → s.analysis_error ≡ none

call-IsExplained :
    (m : Call) (s s' : CatalogTemplate) → IsExplained s → call m s ≡ ok s' → IsExplained s'
unfolding call
call-IsExplained m s s' c h = ground arith

-- All that generation reads of a template, the status aside.
pub record Content : Type 0 where
  pub id : Uuid
  pub slot : Uuid
  pub version : ℕ
  pub prompt : Option String
  pub analysis : Option JsonDict
  pub model : Option String
  pub analysed_at : Option Instant

abbrev pub content : CatalogTemplate → Content
content s = record {
  id = s.id;
  slot = s.catalog_image_slot_id;
  version = s.version;
  prompt = s.prompt_template;
  analysis = s.analysis;
  model = s.analysis_model;
  analysed_at = s.analysed_at;
}

frozen-call :
    (c : Content) (m : Call) (s s' : CatalogTemplate)
    → (is_finished s.status ≡ true) × (content s ≡ c)
    → call m s ≡ ok s'
    → (is_finished s'.status ≡ true) × (content s' ≡ c)
unfolding call
frozen-call c m s s' p h = ground arith

-- Along any calls the prompt, time and error fields agree with the status if they did before.
history-IsExplained :
    (s : CatalogTemplate) (ms : List Call) → IsExplained s → IsExplained (history call s ms)
history-IsExplained s ms c = history_inv call IsExplained call-IsExplained s ms c

-- A template that has been analysed stays so and keeps its prompt, analysis and version, whatever
-- is called.
pub history-frozen :
    (s : CatalogTemplate) (ms : List Call)
    → is_finished s.status ≡ true
    → (is_finished (history call s ms).status ≡ true) × (content (history call s ms) ≡ content s)
history-frozen s ms p =
    history_inv call (λ t. (is_finished t.status ≡ true) × (content t ≡ content s))
      (frozen-call (content s)) s ms (p, refl)
