-- ===== src/Table/Laws.antt =====
-- What `get` finds after `save` and `insert`, and what they keep of every row.
use softbox_ai.Prelude.{
  List, [], ◌∷◌, none, some, ◌==◌, ◌≡◌, ◌≢◌, inl, inr, All, All-find, All-append, In, if_of, arith,
  refl, sym, ◌∙◌, ap, map, filter, some, Bool, All-filter, All-map, All-imp, All-In, Bool-cases,
  ==_refl, if◌then◌else◌,
}
use softbox_ai.Ids.{Uuid}
use softbox_ai.Table.Rows.{Row, is_row, get, save, save_all, insert}

module _ {ℓ} {A : Type ℓ} ⦃row : Row A⦄ where
  -- A row that is found has the id and the tenant that were asked for.
  pub key-get :
      (t i : Uuid) (rows : List A) (x : A)
      → get t i rows ≡ some x
      → (row.key x ≡ i) × (row.tenant x ≡ t)
  key-get t i [] x h = ground arith
  key-get t i (r ∷ rows) x h = ground (arith, key-get t i rows x)

  pub get-save_self :
      (t i : Uuid) (rows : List A) (old x : A)
      → get t i rows ≡ some old
      → row.key x ≡ i
      → row.tenant x ≡ t
      → get t i (save x rows) ≡ some x
  get-save_self t i [] old x h p q = ground arith
  get-save_self t i (r ∷ rows) old x h p q = ground (arith, get-save_self t i rows old x)

  pub get-save_ne :
      (t i : Uuid) (rows : List A) (x : A) → row.key x ≢ i → get t i (save x rows) ≡ get t i rows
  get-save_ne t i [] x h = refl
  get-save_ne t i (r ∷ rows) x h = ground (arith, get-save_ne t i rows x)

module _ {ℓ κ} {A : Type ℓ} ⦃row : Row A⦄ (P : A → Type κ) where
  pub All-get : (t i : Uuid) (rows : List A) (x : A) → All P rows → get t i rows ≡ some x → P x
  All-get t i rows x a h = All-find P (is_row t i) rows x a h

  pub All-save : (x : A) (rows : List A) → P x → All P rows → All P (save x rows)
  All-save x [] p a = tt
  All-save x (r ∷ rows) p a = (if_of P (row.key r == row.key x) x r p a.0, All-save x rows p a.1)

  pub All-insert : (x : A) (rows : List A) → P x → All P rows → All P (insert x rows)
  All-insert x rows p a = All-append P rows (x ∷ []) a (p, tt)

module _ {A : Type 0} ⦃row : Row A⦄ where
  -- Any row of the table that is not the saved one is still there, found under its own id.
  pub get-insert :
      (t i : Uuid) (rows : List A) (x : A) → row.key x ≢ i → get t i (insert x rows) ≡ get t i rows
  get-insert t i [] x h = ground arith
  get-insert t i (r ∷ rows) x h = ground (arith, get-insert t i rows x)

  -- Saving a row of the tenant loses no row of the tenant.
  pub get-save-ne-none :
      (t i : Uuid) (rows : List A) (x : A)
      → row.tenant x ≡ t
      → get t i rows ≢ none
      → get t i (save x rows) ≢ none
  get-save-ne-none t i [] x p h = h
  get-save-ne-none t i (r ∷ rows) x p h = ground (arith, get-save-ne-none t i rows x p)

  pub get_of_In :
      (i : Uuid) (rows : List A) (x : A)
      → In x rows
      → row.key x ≡ i
      → get (row.tenant x) i rows ≢ none
  get_of_In i [] x h p = absurd h
  get_of_In i (r ∷ rows) x (inl e) p = ground arith
  get_of_In i (r ∷ rows) x (inr h) p = ground (arith, get_of_In i rows x h)

module _ {A : Type 0} ⦃row : Row A⦄ where
  -- No two rows have one key.
  abbrev pub Distinct : List A → Type 0
  Distinct [] = Unit
  Distinct (x ∷ rows) = All (λ r. row.key r ≢ row.key x) rows × Distinct rows

  pub save_absent :
      (x : A) (rows : List A) → All (λ r. row.key r ≢ row.key x) rows → save x rows ≡ rows
  save_absent x [] a = refl
  save_absent x (r ∷ rows) a = ground (arith, a.0, save_absent x rows a.1)

  pub save_first :
      (x r : A) (rows : List A)
      → row.key x ≡ row.key r
      → All (λ z. row.key z ≢ row.key x) rows
      → save x (r ∷ rows) ≡ x ∷ rows
  save_first x r rows e a = rw (e, ==_refl (row.key r)) (ap (λ l. x ∷ l) (save_absent x rows a))

  save_all-cons :
      (xs : List A) (y : A) (rows : List A)
      → All (λ x. row.key x ≢ row.key y) xs
      → save_all xs (y ∷ rows) ≡ y ∷ save_all xs rows
  save_all-cons [] y rows a = refl
  save_all-cons (x ∷ xs) y rows a = elim (Bool-cases (row.key y == row.key x)) [
    | inl e ↦ absurd (a.0 (ground (arith, e)))
    | inr e ↦ rw e (save_all-cons xs y (save x rows) a.1)
  ]

  pub get_of_Distinct :
      (rows : List A) (x : A)
      → Distinct rows
      → In x rows
      → get (row.tenant x) (row.key x) rows ≡ some x
  get_of_Distinct [] x d h = absurd h
  get_of_Distinct (r ∷ rows) x d (inl e) = ground (arith, e)
  get_of_Distinct (r ∷ rows) x d (inr h) =
      let ne = All-In (λ z. row.key z ≢ row.key r) x rows d.0 h in
      ground (arith, ne, get_of_Distinct rows x d.1 h)

module _ {A : Type 0} ⦃row : Row A⦄ (g : A → A)
    (same_key : (r : A) → row.key (g r) ≡ row.key r) where
  pub Distinct-map : (rows : List A) → Distinct rows → Distinct (map g rows)
  Distinct-map [] d = tt
  Distinct-map (r ∷ rows) d = (
    All-map (λ z. row.key z ≢ row.key (g r)) g rows
        (All-imp (λ z ne e. ne (sym (same_key z) ∙ e ∙ same_key r)) rows d.0),
    Distinct-map rows d.1,
  )

  -- To save the changed form of the rows that pass a test is to change them in place.
  pub save_all-filter :
      (q : A → Bool) (rows : List A)
      → Distinct rows
      → save_all (map g (filter q rows)) rows ≡ map (λ r. if q r then g r else r) rows
  save_all-filter q [] d = refl
  save_all-filter q (r ∷ rows) d =
      let others : All (λ z. row.key z ≢ row.key r) (map g (filter q rows)) =
        All-map (λ z. row.key z ≢ row.key r) g (filter q rows)
          (All-filter _ q rows (All-imp (λ z ne e. ne (sym (same_key z) ∙ e)) rows d.0)) in
      elim (Bool-cases (q r)) [
        | inl e ↦
            let imp : (z : A) → row.key z ≢ row.key r → row.key z ≢ row.key (g r) =
              λ z ne c. ne (c ∙ same_key r) in
            let apart = All-imp imp (map g (filter q rows)) others in
            rw e (
              ap (save_all (map g (filter q rows)))
                (save_first (g r) r rows (same_key r) (All-imp imp rows d.0))
              ∙ save_all-cons (map g (filter q rows)) (g r) rows apart
              ∙ ap (λ l. g r ∷ l) (save_all-filter q rows d.1))
        | inr e ↦ rw e (
            save_all-cons (map g (filter q rows)) r rows others
            ∙ ap (λ l. r ∷ l) (save_all-filter q rows d.1))
      ]

  pub get-map :
      (t i : Uuid) (rows : List A) (x : A)
      → ((r : A) → row.tenant (g r) ≡ row.tenant r)
      → get t i rows ≡ some x
      → get t i (map g rows) ≡ some (g x)
  get-map t i [] x same h = cc
  get-map t i (r ∷ rows) x same h = ground (arith, same r, same_key r, get-map t i rows x same)
