-- ===== src/Features/Generation/CompleteGenerationItemRender/Replacement.antt =====
-- How many live images a slot has when one is replaced.
use softbox_ai.Prelude.{
  ℕ, ◌≤◌, Option, none, some, List, [], ◌∷◌, Bool, true, false, ◌&&◌, ◌==◌, ◌≡◌, ◌∙◌, refl, sym, ap,
  inl, inr, In-find, find-passes, count, count-append, is_none, Bool-cases, Option-cases,
  if◌then◌else◌, arith,
}
use softbox_ai.Errors.{ok}
use softbox_ai.Ids.{Uuid, Instant}
use softbox_ai.Table.{save, insert}
use softbox_ai.Table.Laws.{Distinct}
use softbox_ai.Table.Counts.{one_if, count-none, none_of_count, find-append_none, count-save}
use softbox_ai.Entities.CatalogImage.{CatalogImage, mark_superseded}
use softbox_ai.UnitOfWork.{Db, image_row, item_row, request_row, asset_row}
use softbox_ai.Features.Generation.CompleteGenerationItemRender.{
  is_live, get_live, supersede, replace_live,
}

abbrev pub retired : Uuid → Instant → CatalogImage → CatalogImage
retired by now image = record image { superseded_by = some by; updated_at = now }

-- The images after the replacement.
abbrev pub replaced :
    Option CatalogImage → CatalogImage → Instant → List CatalogImage → List CatalogImage
replaced none new now images = insert new images
replaced (some live) new now images = insert new (save (retired new.id now live) images)

pub replace_live_lem :
    (t v s : Uuid) (new : CatalogImage) (now : Instant) (db : Db)
    → replace_live t v s new now db
      ≡ ok (
        tt,
        record db {
          catalog_images = replaced (get_live t v s db.catalog_images) new now db.catalog_images;
        },
      )
unfolding replace_live supersede mark_superseded
replace_live_lem t v s new now db = elim (Option-cases (get_live t v s db.catalog_images)) [
  | inl e ↦ rw e refl
  | inr (live, e) ↦
      let passes = find-passes (is_live t v s) db.catalog_images live e in
      let unsuperseded : is_none live.superseded_by ≡ true = ground (arith, passes) in
      rw (e, unsuperseded) refl
]

abbrev pub is_slot : Uuid → Uuid → Uuid → CatalogImage → Bool
is_slot t v s i = i.tenant_id == t && i.variant_id == v && i.catalog_image_slot_id == s

-- How many live images a slot has after the replacement.
module _ (t v s : Uuid) (new : CatalogImage) (now : Instant) (fresh : is_live t v s new ≡ true)
    (images : List CatalogImage) (distinct : Distinct images)
    (single : count (is_live t v s) images ≤ 1) where
  abbrev pub after_replacement : List CatalogImage
  after_replacement = replaced (get_live t v s images) new now images

  pub same_test : (t' v' s' : Uuid) → is_slot t' v' s' new ≡ true → is_live t' v' s' ≡ is_live t v s
  same_test t' v' s' h =
      let et : t' ≡ t = ground (arith, h, fresh) in
      let ev : v' ≡ v = ground (arith, h, fresh) in
      let es : s' ≡ s = ground (arith, h, fresh) in
      ap (λ x. is_live x v' s') et ∙ ap (λ x. is_live t x s') ev ∙ ap (λ x. is_live t v x) es

  -- The row that is live is of the slot of the new one.
  pub live_elsewhere :
      (live : CatalogImage) (t' v' s' : Uuid)
      → is_live t v s live ≡ true
      → is_slot t' v' s' new ≡ false
      → is_live t' v' s' live ≡ false
  live_elsewhere live t' v' s' h q = ground (arith, h, q, fresh)

  -- The two cases: a slot with a live row, and one without.
  module _ (t' v' s' : Uuid) where
    abbrev outcome : Bool → ℕ
    outcome b = if b then 1 else count (is_live t' v' s') images

    count-none_live :
        get_live t v s images ≡ none
        → count (is_live t' v' s') (insert new images) ≡ outcome (is_slot t' v' s' new)
    count-none_live e =
        count-append (is_live t' v' s') images (new ∷ [])
        ∙ elim (Bool-cases (is_slot t' v' s' new)) [
          | inl q ↦
              let same = same_test t' v' s' q in
              let here = ap (λ g. g new) same ∙ fresh in
              let zero_live = ap (λ g. count g images) same ∙ count-none (is_live t v s) images e in
              omega (arith, ap one_if here, zero_live) ∙ sym (ap outcome q)
          | inr q ↦
              let off : is_live t' v' s' new ≡ false = ground (arith, q) in
              omega (arith, ap one_if off) ∙ sym (ap outcome q)
        ]

    count-some_live :
        (live : CatalogImage)
        → get_live t v s images ≡ some live
        → count (is_live t' v' s') (insert new (save (retired new.id now live) images))
          ≡ outcome (is_slot t' v' s' new)
    count-some_live live e =
        let f = is_live t' v' s' in
        let old = retired new.id now live in
        let passes = find-passes (is_live t v s) images live e in
        let retired_now : f old ≡ false = ground arith in
        let moved = count-save f images live old distinct (In-find _ images live e) refl in
        count-append f (save old images) (new ∷ []) ∙ elim (Bool-cases (is_slot t' v' s' new)) [
          | inl q ↦
              let same = same_test t' v' s' q in
              let here = ap (λ g. g new) same ∙ fresh in
              let was = ap (λ g. g live) same ∙ passes in
              let most = ap (λ g. count g images) same in
              omega
                (arith, moved, single, most, ap one_if retired_now, ap one_if here, ap one_if was)
              ∙ sym (ap outcome q)
          | inr q ↦
              let off : f new ≡ false = ground (arith, q) in
              let was = live_elsewhere live t' v' s' passes q in
              omega (arith, moved, ap one_if retired_now, ap one_if off, ap one_if was)
              ∙ sym (ap outcome q)
        ]

  pub count-replaced :
      (t' v' s' : Uuid)
      → count (is_live t' v' s') after_replacement
        ≡ (if is_slot t' v' s' new then 1 else count (is_live t' v' s') images)
  count-replaced t' v' s' = elim (Option-cases (get_live t v s images)) [
    | inl e ↦
        ap (λ o. count (is_live t' v' s') (replaced o new now images)) e
        ∙ count-none_live t' v' s' e
    | inr (live, e) ↦
        ap (λ o. count (is_live t' v' s') (replaced o new now images)) e
        ∙ count-some_live t' v' s' live e
  ]

  pub last_live :
      (xs : List CatalogImage)
      → count (is_live t v s) xs ≡ 0
      → get_live t v s (insert new xs) ≡ some new
  last_live xs h =
      find-append_none (is_live t v s) xs (new ∷ []) (none_of_count (is_live t v s) xs h)
      ∙ ap (λ b. if b then some new else none) fresh

  pub get_live-replaced : get_live t v s after_replacement ≡ some new
  get_live-replaced = elim (Option-cases (get_live t v s images)) [
    | inl e ↦
        ap (λ o. get_live t v s (replaced o new now images)) e
        ∙ last_live images (count-none (is_live t v s) images e)
    | inr (live, e) ↦
        let f = is_live t v s in
        let old = retired new.id now live in
        let retired_now : f old ≡ false = ground arith in
        let moved = count-save f images live old distinct (In-find _ images live e) refl in
        let passes = find-passes f images live e in
        ap (λ o. get_live t v s (replaced o new now images)) e
        ∙ last_live (save old images)
            (omega (arith, moved, single, ap one_if retired_now, ap one_if passes))
  ]
