-- ===== src/Table/Counts.antt =====
-- How many rows pass a test after an update.
use softbox_ai.Prelude.{
  ℕ, ◌+◌, List, [], ◌∷◌, ◌++◌, none, some, ◌==◌, ◌≡◌, ◌≢◌, ◌∙◌, refl, sym, ap, inl, inr, Bool, All,
  All-In, All-imp, In, find, count, Bool-cases, if◌then◌else◌, arith,
}
use softbox_ai.Table.Rows.{Row, save}
use softbox_ai.Table.Laws.{Distinct, save_first}

abbrev pub one_if : Bool → ℕ
one_if b = if b then 1 else 0

module _ {A : Type 0} where
  pub count-none : (f : A → Bool) (xs : List A) → find f xs ≡ none → count f xs ≡ 0
  count-none f [] h = refl
  count-none f (x ∷ xs) h = elim (Bool-cases (f x)) [
    | inl e ↦ absurd (ground (arith, rw e at h))
    | inr e ↦ omega (arith, ap one_if e, count-none f xs (rw e at h))
  ]

  pub none_of_count : (f : A → Bool) (xs : List A) → count f xs ≡ 0 → find f xs ≡ none
  none_of_count f [] h = refl
  none_of_count f (x ∷ xs) h = elim (Bool-cases (f x)) [
    | inl e ↦ absurd (omega (arith, rw e at h))
    | inr e ↦ rw e (none_of_count f xs (omega (arith, h)))
  ]

  pub find-append :
      (f : A → Bool) (xs ys : List A) (x : A) → find f xs ≡ some x → find f (xs ++ ys) ≡ some x
  find-append f [] ys x h = cc
  find-append f (y ∷ xs) ys x h = elim (Bool-cases (f y)) [
    | inl e ↦ rw e (rw e at h)
    | inr e ↦ rw e (find-append f xs ys x (rw e at h))
  ]

  pub find-append_none :
      (f : A → Bool) (xs ys : List A) → find f xs ≡ none → find f (xs ++ ys) ≡ find f ys
  find-append_none f [] ys h = refl
  find-append_none f (x ∷ xs) ys h = elim (Bool-cases (f x)) [
    | inl e ↦ absurd (ground (arith, rw e at h))
    | inr e ↦ rw e (find-append_none f xs ys (rw e at h))
  ]

module _ {A : Type 0} ⦃row : Row A⦄ where
  apart :
      {x : A} (r : A) (rows : List A)
      → All (λ z. row.key z ≢ row.key r) rows
      → row.key x ≡ row.key r
      → All (λ z. row.key z ≢ row.key x) rows
  apart r rows a e = All-imp (λ z ne c. ne (c ∙ e)) rows a

  save_later :
      (x r : A) (rows : List A) → row.key x ≢ row.key r → save x (r ∷ rows) ≡ r ∷ save x rows
  save_later x r rows ne = elim (Bool-cases (row.key r == row.key x)) [
    | inl e ↦ absurd (ground (arith, ne, e))
    | inr e ↦ ap (λ b. (if b then x else r) ∷ save x rows) e
  ]

module _ {A : Type 0} ⦃row : Row A⦄ (f : A → Bool) where
  -- A row that is saved over another one counts in its place.
  pub count-save :
      (rows : List A) (old x : A)
      → Distinct rows
      → In old rows
      → row.key x ≡ row.key old
      → count f (save x rows) + one_if (f old) ≡ count f rows + one_if (f x)
  count-save [] old x d h e = absurd h
  count-save (r ∷ rows) old x d (inl p) e =
      ap (λ l. count f l + one_if (f old))
        (save_first x r rows (e ∙ ap row.key p) (apart r rows d.0 (e ∙ ap row.key p)))
      ∙ omega (arith, ap (λ y. one_if (f y)) p)
  count-save (r ∷ rows) old x d (inr h) e =
      let ne = All-In (λ z. row.key z ≢ row.key r) old rows d.0 h in
      let ih = count-save rows old x d.1 h e in
      ap (λ l. count f l + one_if (f old)) (save_later x r rows (λ c. ne (sym e ∙ c)))
      ∙ omega (arith, ih)
