-- ===== src/Services/InputImageResolution/Precedence.antt =====
-- About the photo that a slot resolves to.
use softbox_ai.Prelude.{
  ◌≡◌, ◌⊎◌, inl, inr, Option, none, some, List, true, false, find, find-passes, In, In-find, All,
  All-find-none, refl,
}
use softbox_ai.Ids.{Uuid}
use softbox_ai.Entities.ProductInputImage.{ProductInputImage}
use softbox_ai.Services.InputImageResolution.{
  is_own_for, is_shared_for, or_shared, resolve_input_image,
}

-- No image of the list is the variant's own for the slot.
abbrev pub NoOwn : List ProductInputImage → Option Uuid → Uuid → Type 0
NoOwn images none slot = Unit
NoOwn images (some v) slot = All (λ i. is_own_for v slot i ≡ false) images

abbrev pub IsOwn : Option Uuid → Uuid → ProductInputImage → Type 0
IsOwn none slot image = ⊥
IsOwn (some v) slot image = is_own_for v slot image ≡ true

-- A resolved image is one of the list and either the variant's own or, where there is none, the
-- product's; nothing is resolved only when the list has neither.
abbrev pub Resolves :
    List ProductInputImage → Option Uuid → Uuid → Option ProductInputImage → Type 0
Resolves images variant slot (some image) =
    In image images
    × (IsOwn variant slot image ⊎ ((is_shared_for slot image ≡ true) × NoOwn images variant slot))
Resolves images variant slot none =
    NoOwn images variant slot × All (λ i. is_shared_for slot i ≡ false) images

module _ (images : List ProductInputImage) (slot : Uuid) where
  from_shared :
      (variant : Option Uuid) (o : Option ProductInputImage)
      → NoOwn images variant slot
      → find (is_shared_for slot) images ≡ o
      → Resolves images variant slot o
  from_shared variant none n e = (n, All-find-none (is_shared_for slot) images e)
  from_shared variant (some image) n e =
      (In-find _ images image e, inr (find-passes _ images image e, n))

  from_own :
      (v : Uuid) (o : Option ProductInputImage)
      → find (is_own_for v slot) images ≡ o
      → Resolves images (some v) slot (or_shared slot images o)
  from_own v none e = from_shared (some v) _ (All-find-none (is_own_for v slot) images e) refl
  from_own v (some image) e = (In-find _ images image e, inl (find-passes _ images image e))

  -- Whatever photos are given, the photo resolved for a slot is one of them: the variant's own for
  -- that slot if there is one, otherwise the product's; nothing is resolved only when there is
  -- neither, and without a variant only the product's photos count.
  pub resolve_input_image_lem :
      (variant : Option Uuid)
      → Resolves images variant slot (resolve_input_image images variant slot)
  unfolding resolve_input_image
  resolve_input_image_lem none = from_shared none _ tt refl
  resolve_input_image_lem (some v) = from_own v _ refl
