-- ===== src/Features/Publishing/CreatePublication/SingleFlight.antt =====
-- About the publications in flight of a variant and a channel.
use softbox_ai.Prelude.{
  ℕ, ◌+◌, ◌≤◌, ◌≡◌, inl, inr, String, Option, none, some, List, [], ◌∷◌, Bool, true, count,
  count-append, find, Bool-cases, Option-cases, refl, arith,
}
use softbox_ai.Errors.{ok}
use softbox_ai.Ids.{Uuid, Instant}
use softbox_ai.Table.{get, insert}
use softbox_ai.Entities.ContentDraft.{ContentDraft, is_approved}
use softbox_ai.Entities.Publication.{Publication, scheduled}
use softbox_ai.UnitOfWork.{Db, publication_row, draft_row, variant_row, account_row}
use softbox_ai.Features.Publishing.CreatePublication.{create_publication, is_live_for, get_live}

-- How many publications of the variant to the channel are in flight.
abbrev pub in_flight : Uuid → Uuid → Uuid → List Publication → ℕ
in_flight tenant variant channel rows = count (is_live_for tenant variant channel) rows

find-none-count :
    (f : Publication → Bool) (rows : List Publication) → find f rows ≡ none → count f rows ≡ 0
find-none-count f [] h = refl
find-none-count f (p ∷ rows) h = ground (arith, find-none-count f rows)

-- A draft that is named is stored, approved and not superseded.
abbrev pub IsPublishable : Uuid → Db → Option Uuid → Type 0
IsPublishable tenant db none = Unit
IsPublishable tenant db (some d) =
    (row : ContentDraft) × (get tenant d db.content_drafts ≡ some row)
    × (row.superseded_by ≡ none)
    × (is_approved row.status ≡ true)

module _ (new_id new_key tenant variant channel : Uuid) (draft : Option Uuid) (caption : String)
    (media : List Uuid) (link : Option String) (due : Option Instant) (now : Instant) (db db' : Db)
    (p : Publication)
    (returned : create_publication new_id new_key tenant variant channel draft caption media link
        due now db
      ≡ ok (p, db')) where
  created :
      (get_live tenant variant channel db.publications ≡ none)
      × (db'.publications ≡ insert p db.publications)
      × (p.tenant_id ≡ tenant)
      × (p.variant_id ≡ variant)
      × (p.channel_id ≡ channel)
      × (p.status ≡ scheduled)
  unfolding create_publication
  created = ground arith

  in_flight-created :
      (t v c : Uuid)
      → in_flight t v c db'.publications
        ≡ in_flight t v c db.publications + count (is_live_for t v c) (p ∷ [])
  in_flight-created t v c = rw created.1 (count-append (is_live_for t v c) db.publications (p ∷ []))

  own_first : in_flight tenant variant channel db.publications ≡ 0
  own_first = find-none-count (is_live_for tenant variant channel) db.publications created.0

  keeps :
      (t v c : Uuid) → in_flight t v c db.publications ≤ 1 → in_flight t v c db'.publications ≤ 1
  keeps t v c h = elim (Bool-cases (is_live_for t v c p)) [
    | inl e ↦ ground (arith, in_flight-created t v c, own_first, created)
    | inr e ↦ rw (in_flight-created t v c, e) (omega arith)
  ]

  draft_approved :
      (d : Uuid)
      → draft ≡ some d
      → (row : ContentDraft) × (get tenant d db.content_drafts ≡ some row)
        × (row.superseded_by ≡ none)
        × (is_approved row.status ≡ true)
  unfolding create_publication
  draft_approved d e = elim (Option-cases (get tenant d db.content_drafts)) [
    | inl q ↦ absurd (ground arith)
    | inr (row, q) ↦ (row, q, ground arith, ground arith)
  ]

  -- When creating a publication returns, it adds one scheduled row, and if every variant and channel
  -- had at most one publication in flight before, each still has; the new one is the only one of its
  -- own. A draft that it names is stored, approved and not superseded.
  pub create_publication-single_flight :
      ((t v c : Uuid) → in_flight t v c db.publications ≤ 1)
      → ((t v c : Uuid) → in_flight t v c db'.publications ≤ 1)
        × (in_flight tenant variant channel db'.publications ≡ 1)
        × (db'.publications ≡ insert p db.publications)
        × (p.status ≡ scheduled)
        × IsPublishable tenant db draft
  create_publication-single_flight single = (
    λ t v c. keeps t v c (single t v c),
    ground (arith, in_flight-created tenant variant channel, own_first, created),
    created.1,
    created.5,
    approved draft refl,
  )
    where
      approved : (o : Option Uuid) → draft ≡ o → IsPublishable tenant db o
      approved none e = tt
      approved (some d) e = draft_approved d e
