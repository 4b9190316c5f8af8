-- ===== src/Services/CopyValidation.antt =====
-- src/app/services/copy_validation.py; `str.lower` is given. Texts are searched by their code points.
pub mod Clean
use softbox_ai.Prelude.{
  ℕ, String, Option, none, some, List, [], ◌∷◌, Bool, true, false, ◌&&◌, ◌||◌, ◌<+>◌, ◌==◌, codes,
  if◌then◌else◌,
}

-- src/app/services/ports/text_generation.py.
pub record GeneratedCopy : Type 0 where
  pub title : Option String
  pub body : String
  pub hashtags : List String
  pub cta : Option String
  pub alt_text : String
  pub model : String
  pub cost_micros : ℕ
  pub latency_ms : ℕ

abbrev pub starts_with : List ℕ → List ℕ → Bool
starts_with [] text = true
starts_with (x ∷ xs) [] = false
starts_with (x ∷ xs) (y ∷ ys) = x == y && starts_with xs ys

-- `needle in text`.
unfoldable pub contains : List ℕ → List ℕ → Bool
contains needle [] = starts_with needle []
contains needle (y ∷ ys) = starts_with needle (y ∷ ys) || contains needle ys

abbrev pub or_empty_text : Option String → String
or_empty_text none = ""
or_empty_text (some s) = s

-- `" ".join(texts)`.
abbrev pub join_words : List String → String
join_words [] = ""
join_words (s ∷ []) = s
join_words (s ∷ t ∷ ts) = s <+> " " <+> join_words (t ∷ ts)

unfoldable pub haystack : (String → String) → GeneratedCopy → List ℕ
haystack lower copy = codes (
    lower (
      join_words (
        or_empty_text copy.title
        ∷ copy.body
        ∷ or_empty_text copy.cta
        ∷ join_words copy.hashtags
        ∷ [])))

-- The loop: the reason for the first claim that is found.
unfoldable pub first_violation : (String → String) → List ℕ → List String → Option String
unfolding contains
first_violation lower text [] = none
first_violation lower text (claim ∷ claims) =
    let rest = first_violation lower text claims in
    if contains (codes (lower claim)) text
    then some ("Forbidden claim " <+> claim <+> " found in generated copy.")
    else rest

unfoldable pub validate_copy : (String → String) → GeneratedCopy → List String → Option String
unfolding haystack first_violation
validate_copy lower copy claims = first_violation lower (haystack lower copy) claims
