-- ===== src/Services/CopyValidation/Clean.antt =====
-- About copy that passes the check. The texts that are searched are the title, the body, the call to
-- action and the hashtags.
use softbox_ai.Prelude.{
  ◌≡◌, ◌↔◌, refl, inl, inr, String, none, some, In, true, List, [], ◌∷◌, ℕ, false, codes, All,
  Bool-cases, arith,
}
use softbox_ai.Services.CopyValidation.{
  GeneratedCopy, contains, haystack, first_violation, validate_copy,
}

-- The claim is in none of the texts that are searched, which the alt text is not among.
abbrev pub IsUnmentioned : (String → String) → GeneratedCopy → String → Type 0
IsUnmentioned lower copy claim = contains (codes (lower claim)) (haystack lower copy) ≡ false

abbrev pub IsMentioned : (String → String) → GeneratedCopy → String → Type 0
IsMentioned lower copy claim = contains (codes (lower claim)) (haystack lower copy) ≡ true

first_violation-In :
    (lower : String → String) (t : List ℕ) (claims : List String) (m : String)
    → first_violation lower t claims ≡ some m
    → (claim : String) × In claim claims × (contains (codes (lower claim)) t ≡ true)
unfolding first_violation
first_violation-In lower t [] m h = cc
first_violation-In lower t (claim ∷ claims) m h =
    elim (Bool-cases (contains (codes (lower claim)) t)) [
      | inl e ↦ (claim, inl refl, e)
      | inr e ↦
          let (found, here, mentioned) = first_violation-In lower t claims m (rw e at h) in
          (found, inr here, mentioned)
    ]

-- A reason that is given has a claim that is mentioned behind it.
pub validate_copy-IsMentioned :
    (lower : String → String) (copy : GeneratedCopy) (claims : List String) (m : String)
    → validate_copy lower copy claims ≡ some m
    → (claim : String) × In claim claims × IsMentioned lower copy claim
unfolding validate_copy
validate_copy-IsMentioned lower copy claims m h =
    first_violation-In lower (haystack lower copy) claims m h

first_violation_lem :
    (lower : String → String) (t : List ℕ) (claims : List String)
    → (first_violation lower t claims ≡ none)
      ↔ All (λ claim. contains (codes (lower claim)) t ≡ false) claims
unfolding first_violation
first_violation_lem lower t [] = ((λ _. tt), (λ _. refl))
first_violation_lem lower t (claim ∷ claims) =
    let ih = first_violation_lem lower t claims in
    elim (Bool-cases (contains (codes (lower claim)) t)) [
      | inl e ↦ ((λ h. absurd (ground (arith, rw e at h))), (λ a. absurd (ground (arith, e, a.0))))
      | inr e ↦ ((λ h. (e, ih.0 (rw e at h))), (λ a. rw e (ih.1 a.1)))
    ]

pub validate_copy_lem :
    (lower : String → String) (copy : GeneratedCopy) (claims : List String)
    → (validate_copy lower copy claims ≡ none) ↔ All (IsUnmentioned lower copy) claims
unfolding validate_copy
validate_copy_lem lower copy claims = first_violation_lem lower (haystack lower copy) claims
