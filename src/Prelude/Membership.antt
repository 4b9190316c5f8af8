-- ===== src/Prelude/Membership.antt =====
-- Membership in a list, and the least and greatest elements by a number.
use Prim.Native.Nat.{ℕ, suc, ◌≤◌}
use mathlib.Core.Path.{◌≡◌, ◌∙◌, refl, sym, ap, subst}
use mathlib.Core.Logic.{◌⊎◌, inl, inr}
use mathlib.Core.Bool.{Bool, true, false}
use mathlib.Core.Option.{Option, none, some}
use mathlib.Core.List.{List, [], ◌∷◌, map}
use native.Mathlib.Omega.{arith}
use softbox_ai.Prelude.Tests.{if◌then◌else◌, leb, Bool-cases, Option-cases}
use softbox_ai.Prelude.Lists.{All, filter, find, some_inj, length, place, sort_by}

module _ {A : Type 0} where
  -- The element is in the list.
  abbrev pub In : A → List A → Type 0
  In a [] = ⊥
  In a (x ∷ xs) = (a ≡ x) ⊎ In a xs

  pub In-filter : (f : A → Bool) (a : A) (xs : List A) → In a (filter f xs) → In a xs × (f a ≡ true)
  In-filter f a [] h = absurd h
  In-filter f a (x ∷ xs) h = go (f x) refl h (In-filter f a xs)
    where
      go :
          (b : Bool)
          → f x ≡ b
          → In a (if b then x ∷ filter f xs else filter f xs)
          → (In a (filter f xs) → In a xs × (f a ≡ true))
          → In a (x ∷ xs) × (f a ≡ true)
      go true e (inl p) ih = (inl p, ap f p ∙ e)
      go true e (inr q) ih = (inr (ih q).0, (ih q).1)
      go false e q ih = (inr (ih q).0, (ih q).1)

module _ {κ} {A : Type 0} (P : A → Type κ) where
  pub All-In : (a : A) (xs : List A) → All P xs → In a xs → P a
  All-In a [] p h = absurd h
  All-In a (x ∷ xs) p (inl e) = subst P (sym e) p.0
  All-In a (x ∷ xs) p (inr h) = All-In a xs p.1 h

  -- What holds of the elements that pass a test holds of each element or it fails the test.
  pub All-of_filter :
      (f : A → Bool) (xs : List A) → All P (filter f xs) → All (λ x. f x ≡ true → P x) xs
  All-of_filter f [] p = tt
  All-of_filter f (x ∷ xs) p = go (f x) refl p (All-of_filter f xs)
    where
      go :
          (b : Bool)
          → f x ≡ b
          → All P (if b then x ∷ filter f xs else filter f xs)
          → (All P (filter f xs) → All (λ x. f x ≡ true → P x) xs)
          → All (λ x. f x ≡ true → P x) (x ∷ xs)
      go true e (p, q) ih = ((λ _. p), ih q)
      go false e q ih = ((λ h. cc), ih q)

module _ {A : Type 0} (size : A → ℕ) where
  abbrev pub smaller : A → Option A → A
  smaller x none = x
  smaller x (some y) = if leb (size x) (size y) then x else y

  -- The first of the least elements: `ORDER BY size LIMIT 1`, `min(xs, key=size)`.
  abbrev pub min_by : List A → Option A
  min_by [] = none
  min_by (x ∷ xs) = some (smaller x (min_by xs))

  abbrev pub larger : A → Option A → A
  larger x none = x
  larger x (some y) = if leb (size y) (size x) then x else y

  -- The first of the greatest elements: `max(xs, key=size)`.
  abbrev pub max_by : List A → Option A
  max_by [] = none
  max_by (x ∷ xs) = some (larger x (max_by xs))

module _ {A : Type 0} (size : A → ℕ) where
  All-le :
      (x y : A) (xs : List A)
      → size x ≤ size y
      → All (λ z. size y ≤ size z) xs
      → All (λ z. size x ≤ size z) xs
  All-le x y [] h a = tt
  All-le x y (z ∷ xs) h a = (omega arith, All-le x y xs h a.1)

  All-ge :
      (x y : A) (xs : List A)
      → size y ≤ size x
      → All (λ z. size z ≤ size y) xs
      → All (λ z. size z ≤ size x) xs
  All-ge x y [] h a = tt
  All-ge x y (z ∷ xs) h a = (omega arith, All-ge x y xs h a.1)

  -- Nothing is least, or greatest, of the empty list alone.
  pub min_by-none : (xs : List A) → min_by size xs ≡ none → xs ≡ []
  min_by-none [] h = refl
  min_by-none (x ∷ xs) h = cc

  pub max_by-none : (xs : List A) → max_by size xs ≡ none → xs ≡ []
  max_by-none [] h = refl
  max_by-none (x ∷ xs) h = cc

  pub In-min_by : (xs : List A) (m : A) → min_by size xs ≡ some m → In m xs
  In-min_by [] m h = cc
  In-min_by (x ∷ xs) m h = elim (Option-cases (min_by size xs)) [
    | inl e ↦ inl (sym (some_inj _ _ (rw e at h)))
    | inr (y, e) ↦ elim (Bool-cases (leb (size x) (size y))) [
      | inl c ↦ inl (sym (some_inj _ _ (rw (e, c) at h)))
      | inr c ↦ inr (In-min_by xs m (e ∙ rw (e, c) at h))
    ]
  ]

  pub min_by-le : (xs : List A) (m : A) → min_by size xs ≡ some m → All (λ x. size m ≤ size x) xs
  min_by-le [] m h = tt
  min_by-le (x ∷ xs) m h = elim (Option-cases (min_by size xs)) [
    | inl e ↦ (
      subst (λ z. size z ≤ size x) (some_inj _ _ (rw e at h)) (omega arith),
      rw (min_by-none xs e) tt,
    )
    | inr (y, e) ↦ elim (Bool-cases (leb (size x) (size y))) [
      | inl c ↦
          let p = some_inj _ _ (rw (e, c) at h) in
          (
            subst (λ z. size z ≤ size x) p (omega arith),
            subst (λ z. All (λ x. size z ≤ size x) xs) p
                (All-le x y xs (ground arith) (min_by-le xs y e)),
          )
      | inr c ↦
          let p = some_inj _ _ (rw (e, c) at h) in
          (
            subst (λ z. size z ≤ size x) p (ground arith),
            subst (λ z. All (λ x. size z ≤ size x) xs) p (min_by-le xs y e),
          )
    ]
  ]

  pub In-max_by : (xs : List A) (m : A) → max_by size xs ≡ some m → In m xs
  In-max_by [] m h = cc
  In-max_by (x ∷ xs) m h = elim (Option-cases (max_by size xs)) [
    | inl e ↦ inl (sym (some_inj _ _ (rw e at h)))
    | inr (y, e) ↦ elim (Bool-cases (leb (size y) (size x))) [
      | inl c ↦ inl (sym (some_inj _ _ (rw (e, c) at h)))
      | inr c ↦ inr (In-max_by xs m (e ∙ rw (e, c) at h))
    ]
  ]

  pub max_by-ge : (xs : List A) (m : A) → max_by size xs ≡ some m → All (λ x. size x ≤ size m) xs
  max_by-ge [] m h = tt
  max_by-ge (x ∷ xs) m h = elim (Option-cases (max_by size xs)) [
    | inl e ↦ (
      subst (λ z. size x ≤ size z) (some_inj _ _ (rw e at h)) (omega arith),
      rw (max_by-none xs e) tt,
    )
    | inr (y, e) ↦ elim (Bool-cases (leb (size y) (size x))) [
      | inl c ↦
          let p = some_inj _ _ (rw (e, c) at h) in
          (
            subst (λ z. size x ≤ size z) p (omega arith),
            subst (λ z. All (λ x. size x ≤ size z) xs) p
                (All-ge x y xs (ground arith) (max_by-ge xs y e)),
          )
      | inr c ↦
          let p = some_inj _ _ (rw (e, c) at h) in
          (
            subst (λ z. size x ≤ size z) p (ground arith),
            subst (λ z. All (λ x. size x ≤ size z) xs) p (max_by-ge xs y e),
          )
    ]
  ]

module _ {κ} {A : Type 0} (P : A → Type κ) where
  pub All-of_In : (xs : List A) → ((a : A) → In a xs → P a) → All P xs
  All-of_In [] h = tt
  All-of_In (x ∷ xs) h = (h x (inl refl), All-of_In xs (λ a p. h a (inr p)))

  pub All-map : {B : Type 0} (g : B → A) (xs : List B) → All (λ x. P (g x)) xs → All P (map g xs)
  All-map g [] p = tt
  All-map g (x ∷ xs) p = (p.0, All-map g xs p.1)

module _ {A : Type 0} where
  pub In-filter_of :
      (f : A → Bool) (a : A) (xs : List A) → In a xs → f a ≡ true → In a (filter f xs)
  In-filter_of f a [] h e = absurd h
  In-filter_of f a (x ∷ xs) (inl p) e = go (f x) refl
    where
      go : (b : Bool) → f x ≡ b → In a (if b then x ∷ filter f xs else filter f xs)
      go true c = inl p
      go false c = cc (c, e, ap f p)
  In-filter_of f a (x ∷ xs) (inr h) e = go (f x) (In-filter_of f a xs h e)
    where
      go : (b : Bool) → In a (filter f xs) → In a (if b then x ∷ filter f xs else filter f xs)
      go true q = inr q
      go false q = q

  pub In-map : {B : Type 0} (g : A → B) (a : A) (xs : List A) → In a xs → In (g a) (map g xs)
  In-map g a [] h = absurd h
  In-map g a (x ∷ xs) (inl p) = inl (ap g p)
  In-map g a (x ∷ xs) (inr h) = inr (In-map g a xs h)

  pub length-map : {B : Type 0} (g : A → B) (xs : List A) → length (map g xs) ≡ length xs
  length-map g [] = refl
  length-map g (x ∷ xs) = ap suc (length-map g xs)

module _ {A : Type 0} (f : A → Bool) where
  pub In-find : (xs : List A) (x : A) → find f xs ≡ some x → In x xs
  In-find [] x h = ground arith
  In-find (y ∷ xs) x h = elim (Bool-cases (f y)) [
    | inl e ↦ inl (sym (some_inj y x (rw e at h)))
    | inr e ↦ inr (In-find xs x (rw e at h))
  ]

  pub All-find-none : (xs : List A) → find f xs ≡ none → All (λ x. f x ≡ false) xs
  All-find-none [] h = tt
  All-find-none (y ∷ xs) h = elim (Bool-cases (f y)) [
    | inl e ↦ absurd (ground (arith, rw e at h))
    | inr e ↦ (e, All-find-none xs (rw e at h))
  ]

  pub All-filter_passes : (xs : List A) → All (λ x. f x ≡ true) (filter f xs)
  All-filter_passes [] = tt
  All-filter_passes (x ∷ xs) = elim (Bool-cases (f x)) [
    | inl e ↦ rw e (e, All-filter_passes xs)
    | inr e ↦ rw e (All-filter_passes xs)
  ]

module _ {A : Type 0} (P : A → Type 0) (size : A → ℕ) where
  pub All-place : (x : A) (ys : List A) → P x → All P ys → All P (place size x ys)
  All-place x [] p a = (p, tt)
  All-place x (y ∷ ys) p a = elim (Bool-cases (leb (size x) (size y))) [
    | inl e ↦ rw e (p, a)
    | inr e ↦ rw e (a.0, All-place x ys p a.1)
  ]

  pub All-sort_by : (xs : List A) → All P xs → All P (sort_by size xs)
  All-sort_by [] a = tt
  All-sort_by (x ∷ xs) a = All-place x (sort_by size xs) a.0 (All-sort_by xs a.1)

module _ {A : Type 0} {P Q : A → Type 0} (f : (a : A) → P a → Q a) where
  pub All-imp : (xs : List A) → All P xs → All Q xs
  All-imp [] a = tt
  All-imp (x ∷ xs) a = (f x a.0, All-imp xs a.1)
