-- ===== src/Prelude/Lists.antt =====
-- Lists measured by native numbers, Boolean searches, and the sort of `ORDER BY`.
use Prim.Native.Nat.{ℕ, zero, suc, ◌+◌}
use mathlib.Core.Path.{◌≡◌, subst}
use mathlib.Core.Bool.{Bool, true, false, ◌||◌}
use mathlib.Core.List.{List, [], ◌∷◌, ◌++◌}
use mathlib.Core.Option.{Option, none, some}
use mathlib.Core.Logic.{inl, inr}
use native.Mathlib.Omega.{arith}
use softbox_ai.Prelude.Tests.{if◌then◌else◌, leb, Bool-cases}

module _ {ℓ} {A : Type ℓ} where
  abbrev pub length : List A → ℕ
  length [] = 0
  length (x ∷ xs) = suc (length xs)

  abbrev pub take : ℕ → List A → List A
  take zero xs = []
  take (suc n) [] = []
  take (suc n) (x ∷ xs) = x ∷ take n xs

  abbrev pub any : (A → Bool) → List A → Bool
  any p [] = false
  any p (x ∷ xs) = p x || any p xs

  abbrev pub filter : (A → Bool) → List A → List A
  filter p [] = []
  filter p (x ∷ xs) = let rest = filter p xs in if p x then x ∷ rest else rest

  -- The first element that passes.
  abbrev pub find : (A → Bool) → List A → Option A
  find p [] = none
  find p (x ∷ xs) = let rest = find p xs in if p x then some x else rest

  abbrev pub count : (A → Bool) → List A → ℕ
  count p [] = 0
  count p (x ∷ xs) = (if p x then 1 else 0) + count p xs

  pub length-append : (xs ys : List A) → length (xs ++ ys) ≡ length xs + length ys
  length-append [] ys = omega arith
  length-append (x ∷ xs) ys = omega (arith, length-append xs ys)

  pub count-append : (p : A → Bool) (xs ys : List A) → count p (xs ++ ys) ≡ count p xs + count p ys
  count-append p [] ys = omega arith
  count-append p (x ∷ xs) ys = omega (arith, count-append p xs ys)

module _ {ℓ κ} {A : Type ℓ} where
  -- Every element satisfies the predicate.
  abbrev pub All : (A → Type κ) → List A → Type κ
  All P [] = Unit
  All P (x ∷ xs) = P x × All P xs

pub some_inj {ℓ} : {A : Type ℓ} (x y : A) → some x ≡ some y → x ≡ y
some_inj x y h = cc

module _ {ℓ κ} {A : Type ℓ} (P : A → Type κ) where
  pub if_of : (b : Bool) (x y : A) → P x → P y → P (if b then x else y)
  if_of true x y p q = p
  if_of false x y p q = q

  pub All-append : (xs ys : List A) → All P xs → All P ys → All P (xs ++ ys)
  All-append [] ys p q = q
  All-append (x ∷ xs) ys p q = (p.0, All-append xs ys p.1 q)

  pub All-filter : (f : A → Bool) (xs : List A) → All P xs → All P (filter f xs)
  All-filter f [] p = tt
  All-filter f (x ∷ xs) p = keep (f x) (All-filter f xs p.1)
    where
      keep : (b : Bool) → All P (filter f xs) → All P (if b then x ∷ filter f xs else filter f xs)
      keep true rest = (p.0, rest)
      keep false rest = rest

  pub All-take : (n : ℕ) (xs : List A) → All P xs → All P (take n xs)
  All-take zero xs p = tt
  All-take (suc n) [] p = tt
  All-take (suc n) (x ∷ xs) p = (p.0, All-take n xs p.1)

  pub All-find : (f : A → Bool) (xs : List A) (x : A) → All P xs → find f xs ≡ some x → P x
  All-find f [] x a h = ground arith
  All-find f (y ∷ xs) x a h = elim (Bool-cases (f y)) [
    | inl e ↦ subst P (some_inj y x (rw e at h)) a.0
    | inr e ↦ All-find f xs x a.1 (rw e at h)
  ]

-- What is found passes the test.
pub find-passes {ℓ} :
    {A : Type ℓ} (f : A → Bool) (xs : List A) (x : A) → find f xs ≡ some x → f x ≡ true
find-passes f [] x h = ground arith
find-passes f (y ∷ xs) x h = elim (Bool-cases (f y)) [
  | inl e ↦ subst (λ z. f z ≡ true) (some_inj y x (rw e at h)) e
  | inr e ↦ find-passes f xs x (rw e at h)
]

module _ {ℓ} {A : Type ℓ} (size : A → ℕ) where
  abbrev pub place : A → List A → List A
  place x [] = x ∷ []
  place x (y ∷ ys) = let rest = place x ys in if leb (size x) (size y) then x ∷ y ∷ ys else y ∷ rest

  -- `ORDER BY size`, equal ones in the order that they had.
  abbrev pub sort_by : List A → List A
  sort_by [] = []
  sort_by (x ∷ xs) = place x (sort_by xs)
