-- ===== src/Entities/Publication/Lifecycle.antt =====
-- The life of a publication, src/app/entities/publication.py, under any sequence of calls.
use softbox_ai.Prelude.{
  ℕ, ◌+◌, ◌≡◌, ◌≢◌, ◌∙◌, ◌⊎◌, Bool, true, false, String, Option, List, [], ◌∷◌, refl, none, arith,
}
use softbox_ai.Errors.{Result, ok}
use softbox_ai.Ids.{Uuid, Instant}
use softbox_ai.Json.{JsonDict}
use softbox_ai.Entities.History.{history, history_inv, history_fixed, settle}
use softbox_ai.Entities.Publication.{
  Publication, PublicationStatus, published, failed, dead, cancelled, defer_dispatch,
  mark_dispatching, mark_published, record_attempt_failure, defer, cancel,
  mark_metrics_fetch_attempted, record_metrics,
}

pub data Call : Type 0 where
  postpone : Instant → Instant → Call
  dispatch withdraw attempt_metrics : Instant → Call
  post : String → Option String → Instant → Call
  fail : String → Bool → Instant → Call
  hold : String → Instant → Instant → Call
  measure : JsonDict → Instant → Call

pub call : Call → Publication → Result Publication
unfolding defer_dispatch mark_dispatching mark_published record_attempt_failure defer cancel
    mark_metrics_fetch_attempted record_metrics
call (postpone until now) s = defer_dispatch until now s
call (dispatch now) s = mark_dispatching now s
call (withdraw now) s = cancel now s
call (attempt_metrics now) s = mark_metrics_fetch_attempted now s
call (post id link now) s = mark_published id link now s
call (fail error terminal now) s = record_attempt_failure error terminal now s
call (hold reason due now) s = defer reason due now s
call (measure metrics now) s = record_metrics metrics now s

-- What says which post this is.
pub record Order : Type 0 where
  pub id : Uuid
  pub tenant_id : Uuid
  pub variant_id : Uuid
  pub channel_id : Uuid
  pub content_draft_id : Option Uuid
  pub idempotency_key : Uuid
  pub payload : JsonDict

abbrev pub order : Publication → Order
order s = record {
  id = s.id;
  tenant_id = s.tenant_id;
  variant_id = s.variant_id;
  channel_id = s.channel_id;
  content_draft_id = s.content_draft_id;
  idempotency_key = s.idempotency_key;
  payload = s.payload;
}

-- A post is recorded on exactly the published rows, and metrics on no others; a failed or dead row
-- has failed at least once, with its error.
pub record IsConsistent (s : Publication) : Type 0 where
  pub posted : s.status ≡ published → (s.external_post_id ≢ none) × (s.published_at ≢ none)
  pub unposted :
      s.status ≢ published
      → (s.external_post_id ≡ none) × (s.published_at ≡ none) × (s.metrics ≡ none)
  pub tried : (s.status ≡ failed) ⊎ (s.status ≡ dead) → (s.attempts ≢ 0) × (s.last_error ≢ none)

order-call : (m : Call) (s s' : Publication) → call m s ≡ ok s' → order s' ≡ order s
unfolding call
order-call m s s' h = ground arith

call-IsConsistent :
    (m : Call) (s s' : Publication) → IsConsistent s → call m s ≡ ok s' → IsConsistent s'
unfolding call
call-IsConsistent m s s' c h = ground arith

-- Whatever is called on it, a publication keeps its idempotency key, its target and its payload,
-- and its post, metrics and failure fields agree with its status if they did before.
pub history-order :
    (s : Publication) (ms : List Call)
    → IsConsistent s
    → (order (history call s ms) ≡ order s) × IsConsistent (history call s ms)
history-order s ms c = (
  history_inv call (λ t. order t ≡ order s) (λ m t t' e h. order-call m t t' h ∙ e) s ms refl,
  history_inv call IsConsistent call-IsConsistent s ms c,
)

-- The fields of the post itself.
abbrev pub IsPosted : Option String → Option String → Option Instant → ℕ → Publication → Type 0
IsPosted id link time attempts s =
    (s.status ≡ published)
    × (s.external_post_id ≡ id)
    × (s.permalink ≡ link)
    × (s.published_at ≡ time)
    × (s.attempts ≡ attempts)

IsPosted-call :
    (id link : Option String) (time : Option Instant) (n : ℕ) (m : Call) (s s' : Publication)
    → IsPosted id link time n s
    → call m s ≡ ok s'
    → IsPosted id link time n s'
unfolding call
IsPosted-call id link time n m s s' p h = ground arith

abbrev pub is_over : PublicationStatus → Bool
is_over dead = true
is_over cancelled = true
is_over _ = false

settle-over : (m : Call) (s : Publication) → is_over s.status ≡ true → settle s (call m s) ≡ s
unfolding call
settle-over m s h = ground arith

-- A published row is never posted again, failed or cancelled, whatever is called: it stays
-- published, with the post's id, link, time and attempts as they are.
pub history-published :
    (s : Publication) (ms : List Call)
    → s.status ≡ published
    → IsPosted s.external_post_id s.permalink s.published_at s.attempts (history call s ms)
history-published s ms p =
    history_inv call (IsPosted s.external_post_id s.permalink s.published_at s.attempts)
      (IsPosted-call s.external_post_id s.permalink s.published_at s.attempts) s ms
      (p, refl, refl, refl, refl)

-- A dead or cancelled row never changes at all.
pub history-over :
    (s : Publication) (ms : List Call) → is_over s.status ≡ true → history call s ms ≡ s
history-over s ms p = history_fixed call s (λ m. settle-over m s p) ms

-- One for a failure that is recorded, nothing for any other call.
failures_of : Call → Result Publication → ℕ
failures_of (fail error terminal now) (ok s') = 1
failures_of _ _ = 0

-- The failures that a life records.
failures : Publication → List Call → ℕ
unfolding failures_of
failures s [] = 0
failures s (m ∷ ms) = failures_of m (call m s) + failures (settle s (call m s)) ms

attempts-settle :
    (m : Call) (s : Publication)
    → (settle s (call m s)).attempts ≡ failures_of m (call m s) + s.attempts
unfolding call failures_of
attempts-settle m s = ground arith

-- `attempts` counts the recorded failures, no more and no less: a deferral for a rate limit, a
-- retry or a refused call leaves it alone.
attempts-history :
    (s : Publication) (ms : List Call) → (history call s ms).attempts ≡ failures s ms + s.attempts
unfolding history failures
attempts-history s [] = omega arith
attempts-history s (m ∷ ms) =
    omega (arith, attempts-settle m s, attempts-history (settle s (call m s)) ms)
