-- ===== src/Services/SpecInheritance/LastWriter.antt =====
-- About the row that a key has after the merge.
use softbox_ai.Prelude.{
  ◌≡◌, String, Option, none, some, List, [], ◌∷◌, ◌++◌, Bool, true, false, Bool-cases, inl, inr,
  refl, sym, ap, ◌∙◌, arith, str_eq, str_eq_iff, if◌then◌else◌,
}
use softbox_ai.Ids.{Uuid}
use softbox_ai.Services.SpecInheritance.{
  OwnedByCategory, Dict, put, lookup, by_category, put_rows, put_chain, resolve_inherited,
}

module _ {A : Type 0} where
  put_twice :
      (k k' : String) (x : A) (e : String × A) (d : Dict A)
      → str_eq e.0 k' ≡ true
      → lookup k ((k', x) ∷ d) ≡ (if str_eq k' k then some x else lookup k (e ∷ d))
  put_twice k k' x e d p = elim (Bool-cases (str_eq k' k)) [
    | inl q ↦ rw q refl
    | inr q ↦ rw (q, ap (λ s. str_eq s k) ((str_eq_iff e.0 k').0 p) ∙ q) refl
  ]

  put_apart :
      (k k' : String) (x : A) (e : String × A) (o : Option A)
      → str_eq e.0 k' ≡ false
      → (if str_eq e.0 k then some e.1 else (if str_eq k' k then some x else o))
        ≡ (if str_eq k' k then some x else (if str_eq e.0 k then some e.1 else o))
  put_apart k k' x e o p = elim (Bool-cases (str_eq e.0 k)) [
    | inr q ↦ rw q refl
    | inl q ↦ elim (Bool-cases (str_eq k' k)) [
      | inr r ↦ rw r refl
      | inl r ↦
          let same : e.0 ≡ k' = (str_eq_iff e.0 k).0 q ∙ sym ((str_eq_iff k' k).0 r) in
          let t : str_eq e.0 k' ≡ true = (str_eq_iff e.0 k').1 same in
          absurd (ground (arith, sym p ∙ t))
    ]
  ]

  lookup-put :
      (k k' : String) (x : A) (d : Dict A)
      → lookup k (put k' x d) ≡ (if str_eq k' k then some x else lookup k d)
  lookup-put k k' x [] = refl
  lookup-put k k' x (e ∷ d) = elim (Bool-cases (str_eq e.0 k')) [
    | inl p ↦ rw p (put_twice k k' x e d p)
    | inr p ↦ rw (p, lookup-put k k' x d) (put_apart k k' x e (lookup k d) p)
  ]

  -- The last element that passes, or the one given where none does.
  abbrev pub last_match : (A → Bool) → List A → Option A → Option A
  last_match p [] o = o
  last_match p (x ∷ xs) o = last_match p xs (if p x then some x else o)

  last_match-append :
      (p : A → Bool) (xs ys : List A) (o : Option A)
      → last_match p (xs ++ ys) o ≡ last_match p ys (last_match p xs o)
  last_match-append p [] ys o = refl
  last_match-append p (x ∷ xs) ys o = last_match-append p xs ys (if p x then some x else o)

module _ {A : Type 0} ⦃owned : OwnedByCategory A⦄ (k : String) where
  abbrev pub has_key : A → Bool
  has_key r = str_eq (owned.row_key r) k

  lookup-put_rows :
      (rows : List A) (d : Dict A)
      → lookup k (put_rows rows d) ≡ last_match has_key rows (lookup k d)
  unfolding put_rows
  lookup-put_rows [] d = refl
  lookup-put_rows (r ∷ rows) d =
      lookup-put_rows rows (put (owned.row_key r) r d)
      ∙ ap (last_match has_key rows) (lookup-put k (owned.row_key r) r d)

  -- The rows of the chain's categories, root first.
  abbrev pub along : List Uuid → List A → List A
  along [] rows = []
  along (category ∷ chain) rows = by_category rows category ++ along chain rows

  lookup-put_chain :
      (chain : List Uuid) (rows : List A) (d : Dict A)
      → lookup k (put_chain chain rows d) ≡ last_match has_key (along chain rows) (lookup k d)
  unfolding put_chain
  lookup-put_chain [] rows d = refl
  lookup-put_chain (category ∷ chain) rows d =
      lookup-put_chain chain rows (put_rows (by_category rows category) d)
      ∙ ap (last_match has_key (along chain rows)) (lookup-put_rows (by_category rows category) d)
      ∙ sym (last_match-append has_key (by_category rows category) (along chain rows) (lookup k d))

  -- For every chain and rows, what a key resolves to is the last row with that key when the rows are
  -- walked category by category from the root to the leaf, each category's in the order given, and
  -- nothing when no category of the chain has the key.
  pub lookup-resolve_inherited :
      (chain : List Uuid) (rows : List A)
      → lookup k (resolve_inherited chain rows) ≡ last_match has_key (along chain rows) none
  unfolding resolve_inherited
  lookup-resolve_inherited chain rows = lookup-put_chain chain rows []
