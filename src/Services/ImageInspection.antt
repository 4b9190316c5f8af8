-- ===== src/Services/ImageInspection.antt =====
-- src/app/services/image_inspection.py. What Pillow finds in the bytes is given: nothing when it raises,
-- otherwise its format, when it names one, with the width and height.
use softbox_ai.Prelude.{ℕ, String, Option, none, some, str_eq, if◌then◌else◌}
use softbox_ai.Errors.{Result, ok, require, validation_error, ◌>>=◌}

pub record Decoded : Type 0 where
  pub format : Option String
  pub width : ℕ
  pub height : ℕ

pub record ImageInspection : Type 0 where
  pub mime : String
  pub width : ℕ
  pub height : ℕ

-- `_FORMAT_TO_MIME.get(fmt or "")`.
abbrev pub format_to_mime : Option String → Option String
format_to_mime none = none
format_to_mime (some fmt) =
    if str_eq fmt "JPEG"
    then some "image/jpeg"
    else if str_eq fmt "PNG"
    then some "image/png"
    else if str_eq fmt "WEBP"
    then some "image/webp"
    else none

unfoldable pub inspect_image : Option Decoded → Result ImageInspection
inspect_image decoded = do
  img ← require decoded (validation_error "File is not a readable image.")
  mime ← require (format_to_mime img.format) (validation_error "Unsupported image format.")
  ok (record { mime = mime; width = img.width; height = img.height })
