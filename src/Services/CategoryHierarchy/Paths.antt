-- ===== src/Services/CategoryHierarchy/Paths.antt =====
-- Paths: what follows a prefix, and where a path ends.
use softbox_ai.Prelude.{
  ◌≡◌, refl, sym, inl, inr, some, List, [], ◌∷◌, ◌++◌, ◌==◌, Bool-cases, ==_refl, arith,
}
use softbox_ai.Ids.{Uuid}
use softbox_ai.Services.CategoryHierarchy.{suffix_of}

pub suffix_of-append : (old s : List Uuid) → suffix_of old (old ++ s) ≡ some s
unfolding suffix_of
suffix_of-append [] s = refl
suffix_of-append (x ∷ old) s = rw (==_refl x) (suffix_of-append old s)

pub suffix_of-eq_some : (old path s : List Uuid) → suffix_of old path ≡ some s → path ≡ old ++ s
unfolding suffix_of
suffix_of-eq_some [] path s h = cc
suffix_of-eq_some (x ∷ old) [] s h = cc
suffix_of-eq_some (x ∷ old) (y ∷ path) s h = elim (Bool-cases (x == y)) [
  | inl e ↦
      let tail = suffix_of-eq_some old path s (rw e at h) in
      let head : x ≡ y = ground (arith, e) in cc
  | inr e ↦ absurd (ground (arith, rw e at h))
]

-- A path that ends below a prefix is one step below a path that has the prefix.
pub below_prefix :
    (old : List Uuid) (x : Uuid) (s path : List Uuid) (a : Uuid)
    → old ++ x ∷ s ≡ path ++ a ∷ []
    → (s0 : List Uuid) × (path ≡ old ++ s0) × (x ∷ s ≡ s0 ++ a ∷ [])
below_prefix [] x s path a h = (path, refl, h)
below_prefix (y ∷ []) x s [] a h = cc
below_prefix (y ∷ z ∷ old) x s [] a h = cc
below_prefix (y ∷ old) x s (z ∷ path) a h =
    let head : y ≡ z = cc in let (s0, p, q) = below_prefix old x s path a (cc) in (s0, cc, q)

pub last_inj : (xs ys : List Uuid) (a b : Uuid) → xs ++ a ∷ [] ≡ ys ++ b ∷ [] → a ≡ b
last_inj [] [] a b h = cc
last_inj [] (y ∷ []) a b h = cc
last_inj [] (y ∷ z ∷ ys) a b h = cc
last_inj (x ∷ []) [] a b h = cc
last_inj (x ∷ z ∷ xs) [] a b h = cc
last_inj (x ∷ xs) (y ∷ ys) a b h = last_inj xs ys a b (cc)

pub append_self : (xs s : List Uuid) → xs ≡ xs ++ s → s ≡ []
append_self [] s h = sym h
append_self (x ∷ xs) s h = append_self xs s (cc)
