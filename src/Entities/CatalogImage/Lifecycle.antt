-- ===== src/Entities/CatalogImage/Lifecycle.antt =====
-- The life of a catalog image, src/app/entities/catalog_image.py, under any sequence of calls.
use softbox_ai.Prelude.{◌≡◌, ◌≢◌, ◌⊎◌, Bool, true, false, String, Option, List, none, some, arith}
use softbox_ai.Errors.{Result, ok}
use softbox_ai.Ids.{Uuid, Instant}
use softbox_ai.Json.{JsonDict}
use softbox_ai.Entities.History.{history, history_inv}
use softbox_ai.Entities.CatalogImage.{
  CatalogImage, CatalogImageStatus, pending_qc, qc_failed, human_review, approved, rejected,
  mark_superseded, mark_qc_passed, mark_qc_failed, mark_human_review, approve, reject,
}

pub data Call : Type 0 where
  supersede : Uuid → Instant → Call
  pass_qc fail_qc : JsonDict → Instant → Call
  escalate decline : String → Instant → Call
  accept : Option Uuid → Instant → Call

pub call : Call → CatalogImage → Result CatalogImage
unfolding mark_superseded mark_qc_passed mark_qc_failed mark_human_review approve reject
call (supersede by now) s = mark_superseded by now s
call (pass_qc result now) s = mark_qc_passed result now s
call (fail_qc result now) s = mark_qc_failed result now s
call (escalate reason now) s = mark_human_review reason now s
call (decline reason now) s = reject reason now s
call (accept by now) s = approve by now s

-- QC has judged every image that is past `pending_qc`; an approval time, and nobody's name without
-- one, is on exactly the approved images; a reason on exactly the rejected and escalated ones.
pub record IsReviewed (s : CatalogImage) : Type 0 where
  pub judged : s.status ≢ pending_qc → s.qc_result ≢ none
  pub approval : s.status ≡ approved → s.approved_at ≢ none
  pub no_approval : s.status ≢ approved → (s.approved_at ≡ none) × (s.approved_by ≡ none)
  pub reason : (s.status ≡ rejected) ⊎ (s.status ≡ human_review) → s.rejection_reason ≢ none
  pub no_reason : s.status ≢ rejected → s.status ≢ human_review → s.rejection_reason ≡ none

call-IsReviewed : (m : Call) (s s' : CatalogImage) → IsReviewed s → call m s ≡ ok s' → IsReviewed s'
unfolding call
call-IsReviewed m s s' c h = ground arith

abbrev pub has_failed_qc : CatalogImageStatus → Bool
has_failed_qc qc_failed = true
has_failed_qc human_review = true
has_failed_qc _ = false

failed_qc-call :
    (m : Call) (s s' : CatalogImage)
    → has_failed_qc s.status ≡ true
    → call m s ≡ ok s'
    → has_failed_qc s'.status ≡ true
unfolding call
failed_qc-call m s s' c h = ground arith

superseded-call :
    (by : Uuid) (m : Call) (s s' : CatalogImage)
    → s.superseded_by ≡ some by
    → call m s ≡ ok s'
    → s'.superseded_by ≡ some by
unfolding call
superseded-call by m s s' c h = ground arith

-- Along any sequence of calls the verdict, approval and rejection fields agree with the status.
pub history-IsReviewed :
    (s : CatalogImage) (ms : List Call) → IsReviewed s → IsReviewed (history call s ms)
history-IsReviewed s ms c = history_inv call IsReviewed call-IsReviewed s ms c

-- An image that failed QC is never approved, rejected or put up for approval, whatever is called.
pub failed_qc-history :
    (s : CatalogImage) (ms : List Call)
    → has_failed_qc s.status ≡ true
    → has_failed_qc (history call s ms).status ≡ true
failed_qc-history s ms p =
    history_inv call (λ t. has_failed_qc t.status ≡ true) failed_qc-call s ms p

-- An image that was superseded stays superseded by the same image.
pub superseded-history :
    (s : CatalogImage) (ms : List Call) (by : Uuid)
    → s.superseded_by ≡ some by
    → (history call s ms).superseded_by ≡ some by
superseded-history s ms by p =
    history_inv call (λ t. t.superseded_by ≡ some by) (superseded-call by) s ms p
