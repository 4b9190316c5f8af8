-- ===== src/Services/CopyPrompt.antt =====
-- src/app/services/copy_prompt_composition.py; `str()` of a value is given.
use softbox_ai.Prelude.{
  ℕ, String, List, [], ◌∷◌, Bool, true, false, codes, ltb, ◌==◌, ◌<+>◌, if◌then◌else◌,
}
use softbox_ai.Json.{Json, JsonDict, empty, entry}
use softbox_ai.Services.PromptComposition.{Texts}

abbrev pub copy_prompt_version : String
copy_prompt_version = "v1"

-- `not y < x` on strings, by code points.
abbrev pub not_after : List ℕ → List ℕ → Bool
not_after [] ys = true
not_after (x ∷ xs) [] = false
not_after (x ∷ xs) (y ∷ ys) = let rest = not_after xs ys in if x == y then rest else ltb x y

abbrev pub place_entry : String → Json → JsonDict → JsonDict
place_entry k v empty = entry k v empty
place_entry k v (entry l w rest) =
    let later = place_entry k v rest in
    if not_after (codes k) (codes l) then entry k v (entry l w rest) else entry l w later

-- `sorted(attributes.items())`; the keys of a dict differ, so values are never compared.
abbrev pub sorted_entries : JsonDict → JsonDict
sorted_entries empty = empty
sorted_entries (entry k v rest) = place_entry k v (sorted_entries rest)

-- The lines joined by a line break.
abbrev pub attribute_lines : Texts → JsonDict → String
attribute_lines py empty = ""
attribute_lines py (entry k v empty) = "- " <+> k <+> ": " <+> py.str v
attribute_lines py (entry k v (entry l w rest)) =
    "- " <+> k <+> ": " <+> py.str v <+> "\n" <+> attribute_lines py (entry l w rest)

unfoldable pub compose_copy_prompt : Texts → Json → Json → JsonDict → String
compose_copy_prompt py channel locale attributes =
    "Write marketing copy for the "
    <+> py.str channel
    <+> " channel, in locale "
    <+> py.str locale
    <+> ".\nProduct attributes:\n"
    <+> attribute_lines py (sorted_entries attributes)
    <+> "\n\nReturn a title, body, hashtags, a call to action, and image alt text, matching the voice conventional for this channel."
