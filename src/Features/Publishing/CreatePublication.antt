-- ===== src/Features/Publishing/CreatePublication.antt =====
-- src/app/features/publishing/create_publication.py, with `get_live` of
-- src/app/infrastructure/persistence/publication_repository.py.
pub mod SingleFlight
use softbox_ai.Prelude.{
  ℕ, String, Option, none, some, List, [], ◌∷◌, Bool, true, false, ◌&&◌, ◌||◌, ◌==◌, not, is_none,
  find, if◌then◌else◌,
}
use softbox_ai.Errors.{Result, ok, err, guard, require, not_found, validation_error, conflict}
use softbox_ai.Ids.{Uuid, Instant}
use softbox_ai.Json.{Json, JsonDict, JsonList, entry, empty, text, uuid, items, nil, cons, null}
use softbox_ai.Table.{get, insert}
use softbox_ai.Entities.ContentDraft.{ContentDraft, is_approved}
use softbox_ai.Entities.Publication.{
  Publication, PublicationStatus, scheduled, dispatching, failed, create,
}
use softbox_ai.UnitOfWork.{
  Db, Tx, pure, lift, gets, found, modify, publication_row, variant_row, account_row, draft_row,
  ◌>>=◌, ◌>>◌,
}

-- `_LIVE_STATUSES`.
abbrev pub is_live : PublicationStatus → Bool
is_live scheduled = true
is_live dispatching = true
is_live failed = true
is_live _ = false

abbrev pub is_live_for : Uuid → Uuid → Uuid → Publication → Bool
is_live_for tenant variant channel p =
    p.tenant_id == tenant && p.variant_id == variant && p.channel_id == channel && is_live p.status

-- The first row that matches: `scalar_one_or_none` raises on two, which `create_publication` does as
-- well on one.
abbrev pub get_live : Uuid → Uuid → Uuid → List Publication → Option Publication
get_live tenant variant channel rows = find (is_live_for tenant variant channel) rows

-- A draft that may be published: live and approved.
abbrev pub may_publish : ContentDraft → Bool
may_publish draft = is_none draft.superseded_by && is_approved draft.status

unfoldable pub check_draft : Uuid → Option Uuid → Tx (Unit {0})
check_draft tenant none = pure tt
check_draft tenant (some id) = do
  draft ← found (λ db. get tenant id db.content_drafts) (not_found "Content draft not found.")
  lift (
      guard (may_publish draft)
        (validation_error "Cannot publish from an unapproved content draft."))

abbrev pub is_empty : List Uuid → Bool
is_empty [] = true
is_empty (x ∷ xs) = false

abbrev uuids : List Uuid → JsonList
uuids [] = nil
uuids (x ∷ xs) = cons (uuid x) (uuids xs)

abbrev or_null : Option String → Json
or_null none = null
or_null (some s) = text s

abbrev pub post_payload : String → List Uuid → Option String → JsonDict
post_payload caption media link =
    entry "caption" (text caption)
      (entry "media_asset_ids" (items (uuids media)) (entry "link" (or_null link) empty))

-- `new_id` and `new_key` are drawn by `Publication.create`.
unfoldable pub create_publication :
    (new_id new_key tenant variant_id channel_id : Uuid) (draft_id : Option Uuid) (caption : String)
    (media : List Uuid) (link : Option String) (due_at : Option Instant) (now : Instant)
    → Tx Publication
unfolding check_draft create
create_publication new_id new_key tenant variant channel draft caption media link due now = do
  v ← found (λ db. get tenant variant db.product_variants) (not_found "Product variant not found.")
  c ← found (λ db. get tenant channel db.social_accounts) (not_found "Channel account not found.")
  check_draft tenant draft
  lift (
      guard (not (is_empty media))
        (validation_error "A publication needs at least one media asset."))
  live ← gets (λ db. get_live tenant variant channel db.publications)
  lift (
      guard (is_none live)
        (conflict "A publication for this variant and channel is already in flight."))
  let p =
      create new_id new_key tenant variant channel draft (post_payload caption media link) due now
  modify (λ db. record db { publications = insert p db.publications })
  pure p
