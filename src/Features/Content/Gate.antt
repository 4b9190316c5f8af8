-- ===== src/Features/Content/Gate.antt =====
-- What the use cases of src/app/features/content share: the two settings that gate copy, with
-- `resolve_forbidden_claims` of start_content_draft_generation.py, and the save of a draft.
use softbox_ai.Prelude.{String, none, some, List, [], ◌∷◌, Bool, true, false}
use softbox_ai.Errors.{Result, ok, err, validation_error}
use softbox_ai.Ids.{Uuid, Instant}
use softbox_ai.Json.{Json, JsonList, null, text, items, nil, cons, is_false}
use softbox_ai.Table.{save}
use softbox_ai.Entities.ContentDraft.{ContentDraft, approve}
use softbox_ai.Entities.Product.{Product}
use softbox_ai.Services.SettingsResolver.{resolve}
use softbox_ai.UnitOfWork.{Tx, pure, lift, modify, draft_row, ◌>>=◌}

abbrev pub approval_required_key : String
approval_required_key = "approval.required"

abbrev pub forbidden_claims_key : String
forbidden_claims_key = "content.forbidden_claims"

abbrev pub bad_claims : Result (List String)
bad_claims = err (validation_error "'content.forbidden_claims' must be a list of strings.")

abbrev pub with_claim : String → Result (List String) → Result (List String)
with_claim claim (ok claims) = ok (claim ∷ claims)
with_claim claim (err e) = err e

abbrev pub claims_of : JsonList → Result (List String)
claims_of nil = ok []
claims_of (cons (text claim) rest) = with_claim claim (claims_of rest)
claims_of (cons _ rest) = bad_claims

unfoldable pub resolve_forbidden_claims : Json → Result (List String)
resolve_forbidden_claims null = ok []
resolve_forbidden_claims (items claims) = claims_of claims
resolve_forbidden_claims _ = bad_claims

abbrev pub save_draft : ContentDraft → Tx (Unit {0})
save_draft draft = modify (λ db. record db { content_drafts = save draft db.content_drafts })

-- `if approval_required is False`.
abbrev pub approve_unless_required : Bool → ContentDraft → Instant → Tx ContentDraft
approve_unless_required true draft now = lift (approve none now draft)
approve_unless_required false draft now = pure draft

-- The resolution of `approval.required` at a product, and what it leads to.
unfoldable pub gated : Uuid → Product → ContentDraft → Instant → Tx ContentDraft
unfolding approve resolve
gated tenant product draft now = do
  approval_required ←
      resolve tenant approval_required_key (some product.category_id) (some product.id)
  approve_unless_required (is_false approval_required) draft now
