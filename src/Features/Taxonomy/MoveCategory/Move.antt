-- ===== src/Features/Taxonomy/MoveCategory/Move.antt =====
-- About a move as a whole.
use softbox_ai.Prelude.{
  ◌≡◌, ◌∙◌, refl, ap, sym, subst, inl, inr, ◌⊎◌, String, Option, none, some, List, [], ◌∷◌, ◌++◌,
  true, false, ==_refl, map, filter, All-imp, All-filter_passes, some_inj, Bool-cases, Option-cases,
  if◌then◌else◌, arith,
}
use softbox_ai.Errors.{ok, err, validation_error, ok_inj}
use softbox_ai.Ids.{Uuid, Instant}
use softbox_ai.Table.{get}
use softbox_ai.Table.Laws.{save_all-filter, get-map, key-get}
use softbox_ai.Entities.Category.{Category, id_of}
use softbox_ai.Services.CategoryHierarchy.{suffix_in, moved}
use softbox_ai.UnitOfWork.{Db, category_row}
use softbox_ai.Features.Taxonomy.CreateCategory.{parent_of}
use softbox_ai.Features.Taxonomy.MoveCategory.{move_entry, in_subtree, move_category}
use softbox_ai.Features.Taxonomy.MoveCategory.Subtree.{suffix_or, shift, in_subtree-suffix_in}
use softbox_ai.Features.Taxonomy.MoveCategory.Tree.{IsTree, IsTree-after}
use softbox_ai.Features.Taxonomy.MoveCategory.Guards.{
  is_below, list_subtree_lem, guarded-is_below, reparent_subtree-refused, reparent_subtree-moved,
}

parent_of-found :
    (m : String) (t : Uuid) (i : Option Uuid) (parent : Option Category) (db : Db)
    → parent_of m t i db ≡ ok (parent, db)
    → (id_of parent ≡ i) × ((p : Category) → parent ≡ some p → get t p.id db.categories ≡ some p)
unfolding parent_of
parent_of-found m t none parent db h =
    let e : none ≡ parent = ap (λ (x : Option Category × Db). x.0) (ok_inj _ _ h) in
    (sym (ap id_of e), λ p q. cc)
parent_of-found m t (some i) parent db h = elim (Option-cases (get t i db.categories)) [
  | inl n ↦ cc (rw n at h)
  | inr (p, n) ↦
      let e : some p ≡ parent = ap (λ (x : Option Category × Db). x.0) (ok_inj _ _ (rw n at h)) in
      let same = (key-get t i db.categories p n).0 in
      (
        sym (ap id_of e) ∙ ap some same,
        λ q w.
            let r = some_inj p q (e ∙ w) in
            subst (λ x. get t x.id db.categories ≡ some x) r
              (ap (λ x. get t x db.categories) same ∙ n),
      )
]

-- A move, row by row.
module _ (t : Uuid) (c : Category) (parent : Option Category) (now : Instant) where
  abbrev after_move : Category → Category
  after_move r = if in_subtree t c r then shift c parent now r else r

  same_id : (r : Category) → (after_move r).id ≡ r.id
  same_id r = elim (Bool-cases (in_subtree t c r)) [
    | inl e ↦ ap (λ b. (if b then shift c parent now r else r).id) e
    | inr e ↦ ap (λ b. (if b then shift c parent now r else r).id) e
  ]

  same_tenant : (r : Category) → (after_move r).tenant_id ≡ r.tenant_id
  same_tenant r = elim (Bool-cases (in_subtree t c r)) [
    | inl e ↦ ap (λ b. (if b then shift c parent now r else r).tenant_id) e
    | inr e ↦ ap (λ b. (if b then shift c parent now r else r).tenant_id) e
  ]

  after_in :
      (r : Category) (s : List Uuid)
      → in_subtree t c r ≡ true
      → suffix_in c r ≡ some s
      → after_move r ≡ moved c parent now s r
  after_in r s e k =
      ap (λ b. if b then shift c parent now r else r) e
      ∙ ap (λ o. moved c parent now (suffix_or o) r) k

  after_out : (r : Category) → in_subtree t c r ≡ false → after_move r ≡ r
  after_out r e = ap (λ b. if b then shift c parent now r else r) e

  root_under : c.tenant_id ≡ t → (after_move c).parent_id ≡ id_of parent
  root_under mine =
      let e : in_subtree t c c ≡ true = ground (arith, mine, ==_refl c.id) in
      let k : suffix_in c c ≡ some [] = rw (==_refl c.id) refl in
      ap (λ (x : Category). x.parent_id) (after_in c [] e k) ∙ rw (==_refl c.id) refl

abbrev pub Moves :
    (t id : Uuid) (new_parent_id : Option Uuid) (user : Uuid) (now : Instant) (db : Db)
    (c : Category) (parent : Option Category)
    → Type 0
Moves t id new_parent_id user now db c parent =
    ((is_below t c parent ≡ true)
      × (m : String) × (move_category t id new_parent_id user now db ≡ err (validation_error m)))
    ⊎ ((is_below t c parent ≡ false)
        × (db' : Db) × (move_category t id new_parent_id user now db ≡ ok (tt, db'))
        × IsTree t db'.categories
        × (c' : Category) × (get t id db'.categories ≡ some c')
        × (c'.parent_id ≡ new_parent_id))

-- For a category that is stored and a new parent, none or a stored one, in a tree: a new parent that is
-- the category or below it is refused; any other move is made, the category then has the new parent,
-- and the categories are a tree again, every path and depth of the subtree at its new place.
pub move_category_lem :
    (t id : Uuid) (new_parent_id : Option Uuid) (user : Uuid) (now : Instant) (db : Db)
    (c : Category) (parent : Option Category)
    → IsTree t db.categories
    → get t id db.categories ≡ some c
    → parent_of "Target parent category not found." t new_parent_id db ≡ ok (parent, db)
    → Moves t id new_parent_id user now db c parent
unfolding move_category
move_category_lem t id new_parent_id user now db c parent tree h k =
    let rows = db.categories in
    let g = after_move t c parent now in
    let found = parent_of-found "Target parent category not found." t new_parent_id parent db k in
    let same = (key-get t id rows c h).0 in
    let stored : get t c.id rows ≡ some c = ap (λ i. get t i rows) same ∙ h in
    let q = guarded-is_below t rows c tree.0 parent found.1 in
    elim (Bool-cases (is_below t c parent)) [
      | inl e ↦
          let (m, z) =
            reparent_subtree-refused c (filter (in_subtree t c) rows) parent now (q ∙ e) in
          inl (e, m, rw (h, k, list_subtree_lem t id rows c h, z) refl)
      | inr e ↦
          let z = reparent_subtree-moved c (filter (in_subtree t c) rows) parent now (q ∙ e) (
            All-imp (λ r b. in_subtree-suffix_in t c r b) _
              (All-filter_passes (in_subtree t c) rows)) in
          let saved =
            save_all-filter (shift c parent now) (λ r. refl) (in_subtree t c) rows tree.0 in
          let out = λ (p : Category) (w : parent ≡ some p). sym (ap (is_below t c) w) ∙ e in
          inr (
            e,
            record db {
              categories = map g rows;
              audit_log = db.audit_log ++ move_entry t user id c.parent_id new_parent_id now ∷ [];
            },
            rw (h, k, list_subtree_lem t id rows c h, z, saved) refl,
            IsTree-after t rows c parent now g tree stored (same_id t c parent now)
                (same_tenant t c parent now) (after_in t c parent now) (after_out t c parent now)
                found.1 out,
            g c,
            get-map g (same_id t c parent now) t id rows c (same_tenant t c parent now) h,
            root_under t c parent now (key-get t id rows c h).1 ∙ found.0,
          )
    ]
