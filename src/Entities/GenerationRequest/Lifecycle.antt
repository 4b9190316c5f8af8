-- ===== src/Entities/GenerationRequest/Lifecycle.antt =====
-- The life of a generation request, src/app/entities/generation_request.py, under any sequence of calls.
use softbox_ai.Prelude.{◌≡◌, ◌≢◌, ◌↔◌, Bool, true, false, List, none, arith}
use softbox_ai.Errors.{Result, ok}
use softbox_ai.Ids.{Instant}
use softbox_ai.Entities.History.{history, history_inv, history_fixed, settle}
use softbox_ai.Entities.GenerationRequest.{
  GenerationRequest, GenerationRequestStatus, queued, running, mark_running, mark_succeeded,
  mark_partially_failed, mark_failed,
}

pub data Call : Type 0 where
  run : Call
  succeed partially_fail fail : Instant → Call

pub call : Call → GenerationRequest → Result GenerationRequest
unfolding mark_running mark_succeeded mark_partially_failed mark_failed
call run r = mark_running r
call (succeed now) r = mark_succeeded now r
call (partially_fail now) r = mark_partially_failed now r
call (fail now) r = mark_failed now r

abbrev pub is_settled : GenerationRequestStatus → Bool
is_settled queued = false
is_settled running = false
is_settled _ = true

-- `completed_at` is set exactly when the request has settled.
abbrev pub IsStamped : GenerationRequest → Type 0
IsStamped r = (is_settled r.status ≡ true) ↔ (r.completed_at ≢ none)

call-IsStamped :
    (m : Call) (s s' : GenerationRequest) → IsStamped s → call m s ≡ ok s' → IsStamped s'
unfolding call
call-IsStamped m s s' c h = (λ p. ground arith, λ p. ground arith)

settle-settled :
    (m : Call) (s : GenerationRequest) → is_settled s.status ≡ true → settle s (call m s) ≡ s
unfolding call
settle-settled m s h = ground arith

-- Along any calls the completion time is set exactly when the request has settled, if that was so
-- before.
pub history-IsStamped :
    (s : GenerationRequest) (ms : List Call) → IsStamped s → IsStamped (history call s ms)
history-IsStamped s ms c = history_inv call IsStamped call-IsStamped s ms c

-- A settled request is never touched again: any later calls leave every field as it is.
pub history-settled :
    (s : GenerationRequest) (ms : List Call) → is_settled s.status ≡ true → history call s ms ≡ s
history-settled s ms h = history_fixed call s (λ m. settle-settled m s h) ms
