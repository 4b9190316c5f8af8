-- ===== src/Entities/ProductInputImage/Lifecycle.antt =====
-- The life of an input image, src/app/entities/product_input_image.py, under any sequence of calls.
use softbox_ai.Prelude.{◌≡◌, ◌≢◌, String, List, refl, none, arith}
use softbox_ai.Errors.{Result, ok}
use softbox_ai.Ids.{Instant}
use softbox_ai.Entities.History.{history, history_inv}
use softbox_ai.Entities.ProductInputImage.{
  ProductInputImage, captured, normalising, rejected, start_validating, mark_ready, mark_rejected,
}

pub data Call : Type 0 where
  start accept : Instant → Call
  refuse : String → Instant → Call

pub call : Call → ProductInputImage → Result ProductInputImage
unfolding start_validating mark_ready mark_rejected
call (start now) s = start_validating now s
call (accept now) s = mark_ready now s
call (refuse reason now) s = mark_rejected reason now s

-- The original upload stands, nothing is normalised, and a reason is on the rejected images alone.
abbrev pub IsConsistent : ProductInputImage → ProductInputImage → Type 0
IsConsistent s t =
    (t.asset_id ≡ s.asset_id)
    × (t.normalised_asset_id ≡ s.normalised_asset_id)
    × (t.status ≢ normalising)
    × (t.status ≡ rejected → t.rejection_reason ≢ none)
    × (t.status ≢ rejected → t.rejection_reason ≡ none)

call-IsConsistent :
    (s : ProductInputImage) (m : Call) (t t' : ProductInputImage)
    → IsConsistent s t
    → call m t ≡ ok t'
    → IsConsistent s t'
unfolding call
call-IsConsistent s m t t' c h = ground arith

-- A captured image keeps its original upload whatever is called on it, is never `normalising`, and
-- carries a rejection reason exactly while it is rejected.
pub history-captured :
    (s : ProductInputImage) (ms : List Call)
    → s.status ≡ captured
    → s.rejection_reason ≡ none
    → IsConsistent s (history call s ms)
history-captured s ms p q =
    history_inv call (IsConsistent s) (call-IsConsistent s) s ms
      (refl, refl, ground arith, ground arith, ground arith)
