-- ===== src/Scenarios/Lives/Images.antt =====
-- A catalog image that fails QC.
use softbox_ai.Prelude.{◌≡◌, none, some, List, [], ◌∷◌, true, arith, refl}
use softbox_ai.Json.{empty}
use softbox_ai.Entities.History.{history}
use softbox_ai.Entities.CatalogImage.{CatalogImage, pending_qc, qc_failed}
use softbox_ai.Entities.CatalogImage.Lifecycle.{
  Call, call, fail_qc, escalate, accept, supersede, has_failed_qc, IsReviewed, history-IsReviewed,
  failed_qc-history,
}

abbrev fresh_image : CatalogImage
fresh_image = record {
  id = 55;
  tenant_id = 1;
  variant_id = 61;
  catalog_image_slot_id = 30;
  asset_id = 50;
  generation_item_id = 10;
  status = pending_qc;
  qc_result = none;
  is_primary = true;
  approved_by = none;
  approved_at = none;
  rejection_reason = none;
  superseded_by = none;
  created_at = 3;
  updated_at = 3;
}

abbrev judged_image : CatalogImage
judged_image = record fresh_image { status = qc_failed; qc_result = some empty }

abbrev calls : List Call
calls = fail_qc empty 4 ∷ accept (some 5) 5 ∷ escalate "blurred" 6 ∷ supersede 56 7 ∷ []

fresh-IsReviewed : IsReviewed fresh_image
fresh-IsReviewed = ground arith

image_example : IsReviewed (history call fresh_image calls)
image_example = history-IsReviewed fresh_image calls fresh-IsReviewed

failed_qc_example : has_failed_qc (history call judged_image calls).status ≡ true
failed_qc_example = failed_qc-history judged_image calls refl
