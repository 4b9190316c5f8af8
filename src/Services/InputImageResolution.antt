-- ===== src/Services/InputImageResolution.antt =====
-- src/app/services/input_image_resolution.py: which input photo stands for a slot.
pub mod Precedence
use softbox_ai.Prelude.{Option, none, some, List, Bool, true, false, ◌&&◌, ◌==◌, find}
use softbox_ai.Ids.{Uuid}
use softbox_ai.Entities.ProductInputImage.{ProductInputImage}

abbrev pub is_variant : Uuid → Option Uuid → Bool
is_variant v none = false
is_variant v (some w) = w == v

abbrev pub is_shared : Option Uuid → Bool
is_shared none = true
is_shared (some w) = false

abbrev pub is_own_for : Uuid → Uuid → ProductInputImage → Bool
is_own_for v slot image = is_variant v image.variant_id && image.input_image_slot_id == slot

abbrev pub is_shared_for : Uuid → ProductInputImage → Bool
is_shared_for slot image = is_shared image.variant_id && image.input_image_slot_id == slot

-- What follows the first loop: the image that it returned, or the second loop.
abbrev pub or_shared :
    Uuid → List ProductInputImage → Option ProductInputImage → Option ProductInputImage
or_shared slot images (some image) = some image
or_shared slot images none = find (is_shared_for slot) images

unfoldable pub resolve_input_image :
    List ProductInputImage → Option Uuid → Uuid → Option ProductInputImage
resolve_input_image images none slot = find (is_shared_for slot) images
resolve_input_image images (some v) slot = or_shared slot images (find (is_own_for v slot) images)
