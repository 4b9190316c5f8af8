-- ===== src/Features/Generation/CompleteCatalogImageQc/RetryPrompt.antt =====
-- The prompt of a retry: src/app/features/generation/complete_catalog_image_qc.py, the first half of
-- `_retry`, which only reads.
use softbox_ai.Prelude.{String, Option, none, some, if◌then◌else◌}
use softbox_ai.Errors.{Result, ok, require, not_found, ◌>>=◌}
use softbox_ai.Ids.{Uuid}
use softbox_ai.Table.{get}
use softbox_ai.Entities.GenerationItem.{GenerationItem}
use softbox_ai.Services.QcRetryLadder.{RetryRung}
use softbox_ai.Services.PromptComposition.{Texts, merge_attributes, compose_prompt}
use softbox_ai.UnitOfWork.{
  Db, request_row, product_row, variant_row, template_row, spec_version_row,
}

abbrev pub prompt_template_of : Option String → String
prompt_template_of none = ""
prompt_template_of (some template) = template

-- The `else` of `_retry`: the prompt of another template.
unfoldable pub recomposed_prompt : Texts → Uuid → GenerationItem → Uuid → Db → Result String
unfolding merge_attributes compose_prompt
recomposed_prompt py tenant item template_id db = do
  template ←
      require (get tenant template_id db.catalog_templates)
        (not_found "Alternate template not found.")
  request ←
      require (get tenant item.request_id db.generation_requests)
        (not_found "Generation request not found.")
  variant ←
      require (get tenant request.variant_id db.product_variants)
        (not_found "Product variant not found.")
  product ← require (get tenant request.product_id db.products) (not_found "Product not found.")
  spec_version ←
      require (get tenant product.spec_version_id db.category_spec_versions)
        (not_found "The product's pinned spec version is missing (data inconsistency).")
  compose_prompt py spec_version.snapshot item.catalog_image_slot_id
      (prompt_template_of template.prompt_template)
      (merge_attributes product.attributes variant.attributes) variant.axis_values

unfoldable pub prompt_for : Texts → Uuid → GenerationItem → RetryRung → Db → Result String
unfolding recomposed_prompt
prompt_for py tenant item rung db =
    if rung.reuse_prompt
    then ok item.prompt_rendered
    else recomposed_prompt py tenant item rung.template_id db
