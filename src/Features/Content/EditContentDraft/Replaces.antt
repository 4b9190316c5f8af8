-- ===== src/Features/Content/EditContentDraft/Replaces.antt =====
-- About an edit: its outcome, and the two drafts that it leaves.
use softbox_ai.Prelude.{
  In, ◌≡◌, ◌≢◌, ◌∙◌, ap, ◌++◌, ==_refl, ◌⊎◌, refl, sym, inl, inr, String, none, some, List, [], ◌∷◌,
  Bool, true, false, is_none, All, Option-cases, if◌then◌else◌,
}
use softbox_ai.Errors.{ok, err, validation_error}
use softbox_ai.Ids.{Uuid, Instant}
use softbox_ai.Json.{Json, is_false}
use softbox_ai.Table
use softbox_ai.Table.Laws.{get-save_self, get-save_ne, key-get}
use softbox_ai.Table.Counts.{find-append, find-append_none}
use softbox_ai.Entities.ContentDraft.{
  ContentDraft, create, pending_approval, approved, mark_pending_approval, mark_superseded, approve,
}
use softbox_ai.Entities.ProductVariant.{ProductVariant}
use softbox_ai.Entities.Product.{Product}
use softbox_ai.Entities.Category.{Category, ancestor_ids}
use softbox_ai.Entities.Setting.{platform, tenant, product}
use softbox_ai.Services.SettingsResolver.{get}
use softbox_ai.Services.SettingsResolver.Precedence.{first_value, above, resolve_lem}
use softbox_ai.Services.CopyValidation.{validate_copy, haystack}
use softbox_ai.Services.CopyValidation.Clean.{
  IsUnmentioned, IsMentioned, validate_copy_lem, validate_copy-IsMentioned,
}
use softbox_ai.UnitOfWork.{Db, draft_row, product_row, variant_row, category_row}
use softbox_ai.Features.Content.Gate.{
  approval_required_key, forbidden_claims_key, resolve_forbidden_claims, approve_unless_required,
  gated,
}
use softbox_ai.Features.Content.EditContentDraft.{Edit, candidate, edit_entry, edit_content_draft}

-- The value of a setting at a product.
abbrev setting_at : Uuid → String → Product → Category → Db → Json
setting_at t key p c db = first_value (
    get (some t) product (some p.id) key db.settings
    ∷ above t key (ancestor_ids c) db.settings
        (get (some t) tenant none key db.settings ∷ get none platform none key db.settings ∷ []))

abbrev gate_status : Bool → ContentDraft → Instant → ContentDraft
gate_status b draft now = record draft {
  status = if b then approved else draft.status;
  approved_by = if b then none else draft.approved_by;
  approved_at = if b then some now else draft.approved_at;
  updated_at = if b then now else draft.updated_at;
}

gated_lem :
    (t : Uuid) (p : Product) (c : Category) (draft : ContentDraft) (now : Instant) (db : Db)
    → Table.get t p.category_id db.categories ≡ some c
    → draft.status ≡ pending_approval
    → gated t p draft now db
      ≡ ok (gate_status (is_false (setting_at t approval_required_key p c db)) draft now, db)
unfolding gated
gated_lem t p c draft now db h e =
    rw (resolve_lem t approval_required_key c p.category_id p.id db h)
      (split (is_false (setting_at t approval_required_key p c db)))
  where
    split : (b : Bool) → approve_unless_required b draft now db ≡ ok (gate_status b draft now, db)
    split true = unfold approve in (rw e refl)
    split false = refl

-- What an edit leaves.
abbrev pub Edited :
    (String → String)
    → Uuid
    → Uuid
    → Uuid
    → Uuid
    → Edit
    → Instant
    → Db
    → ContentDraft
    → Product
    → Category
    → Type 0
Edited lower new_id t id user edit now db existing p c =
    (draft : ContentDraft) × (old : ContentDraft) × (db' : Db) × (edit_content_draft lower new_id t
        id user edit now db
      ≡ ok (draft, db'))
    × (Table.get t new_id db'.content_drafts ≡ some draft)
    × (Table.get t id db'.content_drafts ≡ some old)
    × (old.superseded_by ≡ some new_id)
    × (old.body ≡ existing.body)
    × (draft.body ≡ edit.body)
    × (draft.edited_by ≡ some user)
    × (draft.superseded_by ≡ none)
    × (draft.status ≡ (
        if is_false (setting_at t approval_required_key p c db)
        then approved
        else pending_approval))

-- A claim that is mentioned, and the failure with the reason that the check gives.
abbrev pub Rejected :
    (String → String)
    → Uuid
    → Uuid
    → Uuid
    → Uuid
    → Edit
    → Instant
    → Db
    → ContentDraft
    → List String
    → Type 0
Rejected lower new_id t id user edit now db existing claims =
    (m : String) × (claim : String) × In claim claims
    × IsMentioned lower (candidate edit existing) claim
    × (validate_copy lower (candidate edit existing) claims ≡ some m)
    × (edit_content_draft lower new_id t id user edit now db ≡ err (validation_error m))

-- An edit of a stored live draft whose variant, product and category are stored, with a well-formed list
-- of forbidden claims at the product and a new id that is free. The texts that are searched are the new title,
-- body, call to action and hashtags, joined and in lower case; the alt text is not, and no other alt text changes the verdict.
-- Where the check finds one of the claims in them, the edit fails with its reason. Otherwise none of the claims
-- is in them, and the edit returns: the draft is stored under the new id with the new body, its editor and no
-- successor, approved when the most specific `approval.required` is the literal false and waiting for
-- approval when not; and the draft that was edited is still stored with its body, superseded by the new one.
pub edit_content_draft_lem :
    (lower : String → String) (new_id t id user : Uuid) (edit : Edit) (now : Instant) (db : Db)
    (existing : ContentDraft) (variant : ProductVariant) (p : Product) (c : Category)
    (claims : List String)
    → Table.get t id db.content_drafts ≡ some existing
    → is_none existing.superseded_by ≡ true
    → Table.get t existing.variant_id db.product_variants ≡ some variant
    → Table.get t variant.product_id db.products ≡ some p
    → Table.get t p.category_id db.categories ≡ some c
    → resolve_forbidden_claims (setting_at t forbidden_claims_key p c db) ≡ ok claims
    → Table.get t new_id db.content_drafts ≡ none
    → ((alt : String)
        → validate_copy lower (record (candidate edit existing) { alt_text = alt }) claims
          ≡ validate_copy lower (candidate edit existing) claims)
      × (Rejected lower new_id t id user edit now db existing claims
          ⊎ (All (IsUnmentioned lower (candidate edit existing)) claims
              × Edited lower new_id t id user edit now db existing p c))
unfolding validate_copy haystack edit_content_draft create mark_pending_approval mark_superseded
edit_content_draft_lem lower new_id t id user edit now db existing variant p c claims h1 h2 h3 h4 h5
      h6 h7 =
    let (key, mine) = key-get t id db.content_drafts existing h1 in
    let not_same : existing.id ≢ new_id =
      λ q. cc (sym h7 ∙ ap (λ i. Table.get t i db.content_drafts) (sym q ∙ key) ∙ h1) in
    let resolved = resolve_lem t forbidden_claims_key c p.category_id p.id db h5 in
    (
      (λ alt. refl),
      elim (Option-cases (validate_copy lower (candidate edit existing) claims)) [
        | inr (m, e) ↦
            let (claim, here, found) =
              validate_copy-IsMentioned lower (candidate edit existing) claims m e in
            inl (m, claim, here, found, e, rw (h1, h2, h3, h4, resolved, h6, e) refl)
        | inl e ↦
            let pending =
              record (create new_id t existing.variant_id existing.channel existing.locale edit.body
                edit.alt_text existing.model existing.prompt_version now edit.title
                (some edit.hashtags) edit.cta (some user)) {
                  status = pending_approval;
                  updated_at = now;
                } in
            let b = is_false (setting_at t approval_required_key p c db) in
            let draft = gate_status b pending now in
            let old : ContentDraft = record existing {
              superseded_by = some draft.id;
              updated_at = now;
            } in
            let moved = get-save_ne t new_id db.content_drafts old (λ q. not_same q) in
            inr (
              (validate_copy_lem lower (candidate edit existing) claims).0 e,
              (
                draft,
                old,
                record db {
                  content_drafts = Table.insert draft (Table.save old db.content_drafts);
                  audit_log = db.audit_log ++ edit_entry t user old draft now ∷ [];
                },
                rw (h1, h2, h3, h4, resolved, h6, e, gated_lem t p c pending now db h5 refl) refl,
                find-append_none _ (Table.save old db.content_drafts) (draft ∷ []) (moved ∙ h7)
                    ∙ rw (==_refl t, ==_refl new_id) refl,
                find-append _ (Table.save old db.content_drafts) (draft ∷ []) old
                    (get-save_self t id db.content_drafts existing old h1 key mine),
                refl,
                refl,
                refl,
                refl,
                refl,
                refl,
              ),
            )
      ],
    )
