-- ===== src/Features/Taxonomy/MoveCategory/Tree.antt =====
-- About the categories of a tenant as a tree, before and after a move.
use softbox_ai.Prelude.{
  ◌≡◌, ◌∙◌, refl, ap, sym, subst, inl, inr, ◌⊎◌, ◌+ℤ◌, ◌-ℤ◌, to_lem, +ℤ_swap, pos, Option, none,
  some, List, [], ◌∷◌, ◌++◌, append-nil, append_assoc, true, false, ◌==◌, ==_refl, map, All,
  All-of_In, All-In, All-map, In, In-find, some_inj, Bool-cases, arith,
}
use softbox_ai.Ids.{Uuid, Instant}
use softbox_ai.Table.{get}
use softbox_ai.Table.Laws.{Distinct, Distinct-map, get-map, get_of_Distinct, key-get}
use softbox_ai.Entities.Category.{Category, path_under, depth_under}
use softbox_ai.Services.CategoryHierarchy.{suffix_in, moved}
use softbox_ai.Services.CategoryHierarchy.Paths.{below_prefix, last_inj}
use softbox_ai.UnitOfWork.{category_row}
use softbox_ai.Features.Taxonomy.MoveCategory.{in_subtree}
use softbox_ai.Features.Taxonomy.MoveCategory.Subtree.{path_of_in_subtree, in_subtree_of_path}

-- A root, or a child of a stored row of the tenant.
abbrev pub IsRoot : Category → Type 0
IsRoot c = (c.parent_id ≡ none) × (c.path ≡ c.id ∷ []) × (c.depth ≡ pos 0)

abbrev pub IsChild : Category → Category → Type 0
IsChild p c =
    (c.parent_id ≡ some p.id) × (c.path ≡ p.path ++ c.id ∷ []) × (c.depth ≡ p.depth +ℤ pos 1)

abbrev pub IsPlaced : Uuid → List Category → Category → Type 0
IsPlaced t rows c = IsRoot c ⊎ ((p : Category) × (get t p.id rows ≡ some p) × IsChild p c)

-- The ids are distinct, and every category of the tenant is in its place.
abbrev pub IsTree : Uuid → List Category → Type 0
IsTree t rows = Distinct rows × All (λ c. c.tenant_id ≡ t → IsPlaced t rows c) rows

-- The nodes that a path goes through end with the node's own id.
ends :
    (t : Uuid) (rows : List Category) (c : Category)
    → IsPlaced t rows c
    → (init : List Uuid) × (c.path ≡ init ++ c.id ∷ [])
ends t rows c (inl r) = ([], r.1)
ends t rows c (inr (p, g, h)) = (p.path, h.1)

not_above_root : (path init s0 : List Uuid) (a : Uuid) → path ≡ init ++ a ∷ [] → ¬ ([] ≡ path ++ s0)
not_above_root [] [] s0 a e h = cc
not_above_root [] (x ∷ init) s0 a e h = cc
not_above_root (y ∷ path) init s0 a e h = cc

-- The rows after a move, `g` what it does to a row: its own lemmas for the rows in and outside of the
-- subtree, the new parent among the latter.
module _ (t : Uuid) (rows : List Category) (c : Category) (parent : Option Category) (now : Instant)
    (g : Category → Category) (tree : IsTree t rows) (stored : get t c.id rows ≡ some c)
    (same_id : (r : Category) → (g r).id ≡ r.id)
    (same_tenant : (r : Category) → (g r).tenant_id ≡ r.tenant_id)
    (g_in : (r : Category) (s : List Uuid)
      → in_subtree t c r ≡ true
      → suffix_in c r ≡ some s
      → g r ≡ moved c parent now s r)
    (g_out : (r : Category) → in_subtree t c r ≡ false → g r ≡ r)
    (parent_stored : (p : Category) → parent ≡ some p → get t p.id rows ≡ some p)
    (parent_outside : (p : Category) → parent ≡ some p → in_subtree t c p ≡ false) where
  placed : (r : Category) → In r rows → r.tenant_id ≡ t → IsPlaced t rows r
  placed r h mine = All-In (λ r. r.tenant_id ≡ t → IsPlaced t rows r) r rows tree.1 h mine

  root_is : (r : Category) → In r rows → r.tenant_id ≡ t → r.id ≡ c.id → r ≡ c
  root_is r h mine e = some_inj r c (
      sym (get_of_Distinct rows r tree.0 h)
      ∙ ap (λ x. get x r.id rows) mine
      ∙ ap (λ x. get t x rows) e
      ∙ stored)

  c_in : In c rows
  c_in = In-find _ rows c stored

  c_mine : c.tenant_id ≡ t
  c_mine = (key-get t c.id rows c stored).1

  same_path : (r : Category) → In r rows → r.tenant_id ≡ t → r.path ≡ c.path → r.id ≡ c.id
  same_path r h mine e =
      let (xs, p) = ends t rows r (placed r h mine) in
      let (ys, q) = ends t rows c (placed c c_in c_mine) in last_inj xs ys r.id c.id (sym p ∙ e ∙ q)

  inside :
      (r : Category) (s : List Uuid)
      → In r rows
      → r.tenant_id ≡ t
      → r.path ≡ c.path ++ s
      → (in_subtree t c r ≡ true) × (suffix_in c r ≡ some s)
  inside r s h mine e = in_subtree_of_path t c r s mine (root_is r h mine) (same_path r h mine) e

  found_after : (p : Category) → get t p.id rows ≡ some p → get t p.id (map g rows) ≡ some (g p)
  found_after p h = get-map g same_id t p.id rows p same_tenant h

  kept :
      (p : Category)
      → get t p.id rows ≡ some p
      → in_subtree t c p ≡ false
      → get t p.id (map g rows) ≡ some p
  kept p h e = found_after p h ∙ ap some (g_out p e)

  root-IsPlaced : (o : Option Category) → parent ≡ o → IsPlaced t (map g rows) (moved c o now [] c)
  root-IsPlaced none e = inl (rw (==_refl c.id) refl, refl, to_lem c.depth (pos 0))
  root-IsPlaced (some p) e = inr (
    p,
    kept p (parent_stored p e) (parent_outside p e),
    (rw (==_refl c.id) refl, append-nil (p.path ++ c.id ∷ []), to_lem c.depth (p.depth +ℤ pos 1)),
  )

  -- The root of the subtree.
  c-IsPlaced : IsPlaced t (map g rows) (g c)
  c-IsPlaced =
      let (b, k) = inside c [] c_in c_mine (sym (append-nil c.path)) in
      subst (IsPlaced t (map g rows)) (sym (g_in c [] b k)) (root-IsPlaced parent refl)

  -- A row of the subtree below its root: its parent is of the subtree too.
  below-IsPlaced :
      (r : Category) (x : Uuid) (s : List Uuid)
      → r.tenant_id ≡ t
      → (r.id == c.id) ≡ false
      → r.path ≡ c.path ++ x ∷ s
      → IsPlaced t rows r
      → IsPlaced t (map g rows) (moved c parent now (x ∷ s) r)
  below-IsPlaced r x s mine ne e (inl root) =
      let (s0, q, z) = below_prefix c.path x s [] r.id (sym e ∙ root.1) in
      let (init, y) = ends t rows c (placed c c_in c_mine) in
      absurd (not_above_root c.path init s0 c.id y q)
  below-IsPlaced r x s mine ne e (inr (p, h, child)) =
      let (s0, q, z) = below_prefix c.path x s p.path r.id (sym e ∙ child.1) in
      let (b, k) = inside p s0 (In-find _ rows p h) (key-get t p.id rows p h).1 q in
      let p' = moved c parent now s0 p in
      inr (
        p',
        found_after p h ∙ ap some (g_in p s0 b k),
        (
          rw ne child.0,
          ap (λ l. path_under c.id parent ++ l) z
              ∙ sym (append_assoc (path_under c.id parent) s0 (r.id ∷ [])),
          ap (λ d. d +ℤ (depth_under parent -ℤ c.depth)) child.2
              ∙ +ℤ_swap p.depth (depth_under parent -ℤ c.depth),
        ),
      )

  -- A row outside of the subtree: its parent is outside too.
  outside-IsPlaced :
      (r : Category)
      → In r rows
      → r.tenant_id ≡ t
      → in_subtree t c r ≡ false
      → IsPlaced t rows r
      → IsPlaced t (map g rows) r
  outside-IsPlaced r i mine e (inl root) = inl root
  outside-IsPlaced r i mine e (inr (p, h, child)) = elim (Bool-cases (in_subtree t c p)) [
    | inr f ↦ inr (p, kept p h f, child)
    | inl f ↦
        let mine' = (key-get t p.id rows p h).1 in
        let (s, k, q) = path_of_in_subtree t c p (root_is p (In-find _ rows p h) mine') f in
        let path = child.1 ∙ ap (λ l. l ++ r.id ∷ []) q ∙ append_assoc c.path s (r.id ∷ []) in
        let (b, z) = inside r (s ++ r.id ∷ []) i mine path in absurd (ground (arith, b, e))
  ]

  in-IsPlaced :
      (r : Category)
      → In r rows
      → r.tenant_id ≡ t
      → in_subtree t c r ≡ true
      → (r.id == c.id) ≡ false
      → (s : List Uuid) × (suffix_in c r ≡ some s) × (r.path ≡ c.path ++ s)
      → IsPlaced t (map g rows) (g r)
  in-IsPlaced r i mine e ne ([], k, q) =
      absurd (ground (arith, ne, same_path r i mine (q ∙ append-nil c.path)))
  in-IsPlaced r i mine e ne (x ∷ s, k, q) =
      subst (IsPlaced t (map g rows)) (sym (g_in r (x ∷ s) e k))
        (below-IsPlaced r x s mine ne q (placed r i mine))

  row-IsPlaced : (r : Category) → In r rows → r.tenant_id ≡ t → IsPlaced t (map g rows) (g r)
  row-IsPlaced r i mine = elim (Bool-cases (in_subtree t c r)) [
    | inr e ↦
        subst (IsPlaced t (map g rows)) (sym (g_out r e))
          (outside-IsPlaced r i mine e (placed r i mine))
    | inl e ↦ elim (Bool-cases (r.id == c.id)) [
      | inl same ↦
          subst (λ x. IsPlaced t (map g rows) (g x)) (sym (root_is r i mine (ground (arith, same))))
            c-IsPlaced
      | inr ne ↦ in-IsPlaced r i mine e ne (path_of_in_subtree t c r (root_is r i mine) e)
    ]
  ]

  pub IsTree-after : IsTree t (map g rows)
  IsTree-after = (
    Distinct-map g same_id rows tree.0,
    All-map (λ r. r.tenant_id ≡ t → IsPlaced t (map g rows) r) g rows
        (All-of_In _ rows (λ r i mine. row-IsPlaced r i (sym (same_tenant r) ∙ mine))),
  )
