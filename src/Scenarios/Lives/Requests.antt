-- ===== src/Scenarios/Lives/Requests.antt =====
-- A generation request that settles, and one that has settled.
use softbox_ai.Prelude.{◌≡◌, some, List, [], ◌∷◌, refl}
use softbox_ai.Entities.History.{history}
use softbox_ai.Entities.GenerationRequest.{GenerationRequest, failed}
use softbox_ai.Entities.GenerationRequest.Lifecycle.{
  Call, call, run, succeed, fail, history-settled,
}
use softbox_ai.Scenarios.Data.{running_request}

abbrev settled_request : GenerationRequest
settled_request = record running_request { status = failed; completed_at = some 9 }

abbrev calls : List Call
calls = succeed 10 ∷ run ∷ fail 11 ∷ []

settled_example : history call settled_request calls ≡ settled_request
settled_example = history-settled settled_request calls refl
