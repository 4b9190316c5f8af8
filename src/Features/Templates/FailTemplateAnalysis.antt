-- ===== src/Features/Templates/FailTemplateAnalysis.antt =====
-- src/app/features/templates/fail_template_analysis.py and archive_template.py.
use softbox_ai.Prelude.{String, none, some}
use softbox_ai.Errors.{not_found}
use softbox_ai.Ids.{Uuid, Instant}
use softbox_ai.Json.{entry, empty, text}
use softbox_ai.Table.{get, save}
use softbox_ai.Entities.CatalogTemplate.{CatalogTemplate, mark_analysis_failed, archive}
use softbox_ai.UnitOfWork.{
  Tx, pure, lift, found, modify, record_audit, AuditLogEntry, template_row, ◌>>=◌, ◌>>◌,
}

abbrev pub failure_entry : Uuid → Uuid → String → Instant → AuditLogEntry
failure_entry tenant id reason now = record {
  tenant_id = tenant;
  actor_user_id = none;
  action = "catalog_template.analysis_failed";
  subject_type = "catalog_template";
  subject_id = id;
  before = some (entry "status" (text "analysing") empty);
  after = some (entry "status" (text "analysis_failed") (entry "reason" (text reason) empty));
  occurred_at = now;
}

unfoldable pub fail_template_analysis : Uuid → Uuid → String → Instant → Tx CatalogTemplate
unfolding mark_analysis_failed
fail_template_analysis tenant template_id reason now = do
  template ←
      found (λ db. get tenant template_id db.catalog_templates) (not_found "Template not found.")
  template' ← lift (mark_analysis_failed reason now template)
  modify (λ db. record db { catalog_templates = save template' db.catalog_templates })
  modify (record_audit (failure_entry tenant template'.id reason now))
  pure template'

unfoldable pub archive_template : Uuid → Uuid → Instant → Tx CatalogTemplate
unfolding archive
archive_template tenant template_id now = do
  template ←
      found (λ db. get tenant template_id db.catalog_templates) (not_found "Template not found.")
  template' ← lift (archive now template)
  modify (λ db. record db { catalog_templates = save template' db.catalog_templates })
  pure template'
