-- ===== src/Table/Sorting.antt =====
-- Rows taken out of a table by a test, in an order, up to a number.
use softbox_ai.Prelude.{
  ℕ, zero, suc, List, [], ◌∷◌, ◌==◌, ◌≡◌, ◌≢◌, ◌∙◌, refl, sym, ap, subst, inl, inr, Bool, All,
  All-filter, All-take, All-place, All-sort_by, In, filter, take, map, place, sort_by, leb,
  Bool-cases, if◌then◌else◌, arith,
}
use softbox_ai.Table.Rows.{Row, save}
use softbox_ai.Table.Laws.{Distinct, Distinct-map}

module _ {A : Type 0} ⦃row : Row A⦄ where
  pub Distinct-filter : (f : A → Bool) (rows : List A) → Distinct rows → Distinct (filter f rows)
  Distinct-filter f [] d = tt
  Distinct-filter f (r ∷ rows) d = elim (Bool-cases (f r)) [
    | inl e ↦ rw e (All-filter (λ z. row.key z ≢ row.key r) f rows d.0, Distinct-filter f rows d.1)
    | inr e ↦ rw e (Distinct-filter f rows d.1)
  ]

  pub Distinct-take : (n : ℕ) (rows : List A) → Distinct rows → Distinct (take n rows)
  Distinct-take zero rows d = tt
  Distinct-take (suc n) [] d = tt
  Distinct-take (suc n) (r ∷ rows) d =
      (All-take (λ z. row.key z ≢ row.key r) n rows d.0, Distinct-take n rows d.1)

  Distinct-place :
      (size : A → ℕ) (x : A) (rows : List A)
      → All (λ z. row.key z ≢ row.key x) rows
      → Distinct rows
      → Distinct (place size x rows)
  Distinct-place size x [] a d = (tt, tt)
  Distinct-place size x (r ∷ rows) a d = elim (Bool-cases (leb (size x) (size r))) [
    | inl e ↦ rw e (a, d)
    | inr e ↦
        let back : row.key x ≢ row.key r = λ c. a.0 (sym c) in
        rw e (
          All-place (λ z. row.key z ≢ row.key r) size x rows back d.0,
          Distinct-place size x rows a.1 d.1,
        )
  ]

  pub Distinct-sort_by :
      (size : A → ℕ) (rows : List A) → Distinct rows → Distinct (sort_by size rows)
  Distinct-sort_by size [] d = tt
  Distinct-sort_by size (r ∷ rows) d =
      Distinct-place size r (sort_by size rows)
        (All-sort_by (λ z. row.key z ≢ row.key r) size rows d.0) (Distinct-sort_by size rows d.1)

  -- A save writes over one row.
  abbrev over : A → A → A
  over x r = if row.key r == row.key x then x else r

  key-over : (x r : A) → row.key (over x r) ≡ row.key r
  key-over x r = elim (Bool-cases (row.key r == row.key x)) [
    | inl e ↦ rw e (ground (arith, e))
    | inr e ↦ rw e refl
  ]

  save-map : (x : A) (rows : List A) → save x rows ≡ map (over x) rows
  save-map x [] = refl
  save-map x (r ∷ rows) = ap (λ l. over x r ∷ l) (save-map x rows)

  pub Distinct-save : (x : A) (rows : List A) → Distinct rows → Distinct (save x rows)
  Distinct-save x rows d =
      subst Distinct (sym (save-map x rows)) (Distinct-map (over x) (key-over x) rows d)

  pub In-save : (x e : A) (rows : List A) → row.key e ≢ row.key x → In e rows → In e (save x rows)
  In-save x e [] ne h = absurd h
  In-save x e (r ∷ rows) ne (inl p) = inl (elim (Bool-cases (row.key r == row.key x)) [
    | inl c ↦ absurd (ne (ap row.key p ∙ ground (arith, c)))
    | inr c ↦ p ∙ sym (ap (λ b. if b then x else r) c)
  ])
  In-save x e (r ∷ rows) ne (inr h) = inr (In-save x e rows ne h)
