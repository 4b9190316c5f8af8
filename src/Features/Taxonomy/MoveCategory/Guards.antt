-- ===== src/Features/Taxonomy/MoveCategory/Guards.antt =====
-- What the guards of a move and its loop come to.
use softbox_ai.Prelude.{
  ◌≡◌, ◌∙◌, refl, ap, sym, inl, inr, String, Option, none, some, List, [], ◌∷◌, Bool, true, false,
  not, ◌||◌, ◌==◌, ==_refl, is_none, map, filter, any, All, In, In-find, In-filter_of, In-filter,
  some_inj, Bool-cases, arith,
}
use softbox_ai.Errors.{ok, err, validation_error}
use softbox_ai.Ids.{Uuid, Instant}
use softbox_ai.Table.{get}
use softbox_ai.Table.Laws.{Distinct, get_of_Distinct, key-get}
use softbox_ai.Entities.Category.{Category}
use softbox_ai.Services.CategoryHierarchy.{
  suffix_in, is_own_parent, is_under_itself, reparent_subtree,
}
use softbox_ai.UnitOfWork.{category_row}
use softbox_ai.Features.Taxonomy.MoveCategory.{in_subtree, list_subtree}
use softbox_ai.Features.Taxonomy.MoveCategory.Subtree.{shift, move_rows_lem}

abbrev pub is_below : Uuid → Category → Option Category → Bool
is_below t c none = false
is_below t c (some p) = in_subtree t c p

pub In_of_any :
    {A : Type 0} (f : A → Bool) (xs : List A) → any f xs ≡ true → (a : A) × In a xs × (f a ≡ true)
In_of_any f [] h = cc
In_of_any f (x ∷ xs) h = elim (Bool-cases (f x)) [
  | inl e ↦ (x, inl refl, e)
  | inr e ↦ let (a, i, p) = In_of_any f xs (rw e at h) in (a, inr i, p)
]

pub any_of_In :
    {A : Type 0} (f : A → Bool) (a : A) (xs : List A) → In a xs → f a ≡ true → any f xs ≡ true
any_of_In f a [] i h = absurd i
any_of_In f a (x ∷ xs) (inl e) h = rw (sym (ap f e) ∙ h) refl
any_of_In f a (x ∷ xs) (inr i) h = ground (arith, any_of_In f a xs i h)

pub list_subtree_lem :
    (t i : Uuid) (rows : List Category) (c : Category)
    → get t i rows ≡ some c
    → list_subtree t i rows ≡ filter (in_subtree t c) rows
unfolding list_subtree
list_subtree_lem t i rows c h = rw h refl

-- The guards refuse exactly a new parent of the subtree.
abbrev pub guarded : Category → List Category → Option Category → Bool
guarded c subtree parent = is_own_parent c parent || is_under_itself c subtree parent

module _ (t : Uuid) (rows : List Category) (c : Category) (distinct : Distinct rows) where
  abbrev pub rest : List Category
  rest = filter (λ r. not (r.id == c.id)) (filter (in_subtree t c) rows)

  pub same_row :
      (p : Category)
      → get t p.id rows ≡ some p
      → (r : Category) → In r rest
      → (r.id == p.id) ≡ true
      → in_subtree t c p ≡ true
  same_row p h r i e =
      let (i', b) =
        In-filter (in_subtree t c) r rows (In-filter _ r (filter (in_subtree t c) rows) i).0 in
      let mine : r.tenant_id ≡ t = ground (arith, b) in
      let id : r.id ≡ p.id = ground (arith, e) in
      let same =
        sym (get_of_Distinct rows r distinct i')
        ∙ ap (λ x. get x r.id rows) mine
        ∙ ap (λ x. get t x rows) id
        ∙ h in
      sym (ap (in_subtree t c) (some_inj r p same)) ∙ b

  pub guarded_lem :
      (p : Category)
      → get t p.id rows ≡ some p
      → guarded c (filter (in_subtree t c) rows) (some p) ≡ in_subtree t c p
  guarded_lem p h =
      let mine = (key-get t p.id rows p h).1 in
      elim (Bool-cases (p.id == c.id)) [
        | inl e ↦ ground (arith, e, mine)
        | inr e ↦ elim (Bool-cases (in_subtree t c p)) [
          | inl f ↦
              let i = In-filter_of (in_subtree t c) p rows (In-find _ rows p h) f in
              let j =
                In-filter_of (λ r. not (r.id == c.id)) p (filter (in_subtree t c) rows) i
                  (rw e refl) in
              ap (λ x. x || any (λ r. r.id == p.id) rest) e
              ∙ any_of_In (λ r. r.id == p.id) p rest j (==_refl p.id)
              ∙ sym f
          | inr f ↦ elim (Bool-cases (any (λ r. r.id == p.id) rest)) [
            | inl g ↦
                let (r, i, q) = In_of_any (λ r. r.id == p.id) rest g in
                absurd (ground (arith, f, same_row p h r i q))
            | inr g ↦ ap (λ x. x || any (λ r. r.id == p.id) rest) e ∙ g ∙ sym f
          ]
        ]
      ]

  pub guarded-is_below :
      (parent : Option Category)
      → ((p : Category) → parent ≡ some p → get t p.id rows ≡ some p)
      → guarded c (filter (in_subtree t c) rows) parent ≡ is_below t c parent
  guarded-is_below none h = refl
  guarded-is_below (some p) h = guarded_lem p (h p refl)

pub reparent_subtree-refused :
    (c : Category) (rows : List Category) (parent : Option Category) (now : Instant)
    → guarded c rows parent ≡ true
    → (m : String) × (reparent_subtree c rows parent now ≡ err (validation_error m))
unfolding reparent_subtree
reparent_subtree-refused c rows parent now h = elim (Bool-cases (is_own_parent c parent)) [
  | inl e ↦ ("A category cannot be its own parent.", rw e refl)
  | inr e ↦ (
    "A category cannot be moved under its own descendant.",
    let f : is_under_itself c rows parent ≡ true = ground (arith, h, e) in rw (e, f) refl,
  )
]

pub reparent_subtree-moved :
    (c : Category) (rows : List Category) (parent : Option Category) (now : Instant)
    → guarded c rows parent ≡ false
    → All (λ r. is_none (suffix_in c r) ≡ false) rows
    → reparent_subtree c rows parent now ≡ ok (map (shift c parent now) rows)
unfolding reparent_subtree
reparent_subtree-moved c rows parent now h a =
    let e : is_own_parent c parent ≡ false = ground (arith, h) in
    let f : is_under_itself c rows parent ≡ false = ground (arith, h) in
    rw (e, f) (move_rows_lem c parent now rows a)
