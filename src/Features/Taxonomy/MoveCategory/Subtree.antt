-- ===== src/Features/Taxonomy/MoveCategory/Subtree.antt =====
-- The rows that a move reads and what its loop does with them.
use softbox_ai.Prelude.{
  ◌≡◌, ◌∙◌, refl, ap, sym, inl, inr, Option, none, some, List, [], ◌∷◌, ◌++◌, append-nil, true,
  false, ◌==◌, is_none, map, All, Bool-cases, Option-cases, arith,
}
use softbox_ai.Errors.{ok}
use softbox_ai.Ids.{Uuid, Instant}
use softbox_ai.Entities.Category.{Category}
use softbox_ai.Services.CategoryHierarchy.{suffix_of, suffix_in, moved, move_rows}
use softbox_ai.Services.CategoryHierarchy.Paths.{suffix_of-append, suffix_of-eq_some, append_self}
use softbox_ai.UnitOfWork.{category_row}
use softbox_ai.Features.Taxonomy.MoveCategory.{in_subtree}

abbrev pub suffix_or : Option (List Uuid) → List Uuid
suffix_or none = []
suffix_or (some s) = s

-- What the loop does with one row.
abbrev pub shift : Category → Option Category → Instant → Category → Category
shift c parent now row = moved c parent now (suffix_or (suffix_in c row)) row

pub move_rows_lem :
    (c : Category) (parent : Option Category) (now : Instant) (rows : List Category)
    → All (λ r. is_none (suffix_in c r) ≡ false) rows
    → move_rows c parent now rows ≡ ok (map (shift c parent now) rows)
unfolding move_rows
move_rows_lem c parent now [] a = refl
move_rows_lem c parent now (r ∷ rows) a = elim (Option-cases (suffix_in c r)) [
  | inl e ↦ absurd (ground (arith, rw e at a.0))
  | inr (s, e) ↦ rw (e, move_rows_lem c parent now rows a.1) refl
]

pub in_subtree-suffix_in :
    (t : Uuid) (c r : Category) → in_subtree t c r ≡ true → is_none (suffix_in c r) ≡ false
in_subtree-suffix_in t c r h = ground arith

-- A row of the subtree has the path of its root and what the loop keeps of it.
module _ (t : Uuid) (c : Category) where
  pub path_of_in_subtree :
      (r : Category)
      → (r.id ≡ c.id → r ≡ c)
      → in_subtree t c r ≡ true
      → (s : List Uuid) × (suffix_in c r ≡ some s) × (r.path ≡ c.path ++ s)
  path_of_in_subtree r same h = elim (Bool-cases (r.id == c.id)) [
    | inl e ↦ (
      [],
      rw e refl,
      ap (λ (x : Category). x.path) (same (ground (arith, e))) ∙ sym (append-nil c.path),
    )
    | inr e ↦ elim (Option-cases (suffix_of c.path r.path)) [
      | inl n ↦ absurd (ground (arith, h, e, n))
      | inr ([], n) ↦ absurd (ground (arith, h, e, n))
      | inr (x ∷ s, n) ↦ (x ∷ s, rw (e, n) refl, suffix_of-eq_some c.path r.path (x ∷ s) n)
    ]
  ]

  after :
      (r : Category) (s : List Uuid)
      → r.tenant_id ≡ t
      → (r.path ≡ c.path → r.id ≡ c.id)
      → r.path ≡ c.path ++ s
      → (r.id == c.id) ≡ false
      → (in_subtree t c r ≡ true) × (suffix_in c r ≡ some s)
  after r [] mine back h e = absurd (ground (arith, e, back (h ∙ append-nil c.path)))
  after r (x ∷ s) mine back h e =
      let q : suffix_of c.path r.path ≡ some (x ∷ s) =
        ap (suffix_of c.path) h ∙ suffix_of-append c.path (x ∷ s) in
      (ground (arith, mine, q), rw (e, q) refl)

  pub in_subtree_of_path :
      (r : Category) (s : List Uuid)
      → r.tenant_id ≡ t
      → (r.id ≡ c.id → r ≡ c)
      → (r.path ≡ c.path → r.id ≡ c.id)
      → r.path ≡ c.path ++ s
      → (in_subtree t c r ≡ true) × (suffix_in c r ≡ some s)
  in_subtree_of_path r s mine same back h = elim (Bool-cases (r.id == c.id)) [
    | inl e ↦
        let p = ap (λ (x : Category). x.path) (same (ground (arith, e))) in
        let none_left = append_self c.path s (sym p ∙ h) in
        (ground (arith, mine, e), rw e (ap some (sym none_left)))
    | inr e ↦ after r s mine back h e
  ]
