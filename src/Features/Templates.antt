-- ===== src/Features/Templates.antt =====
-- src/app/features/templates: what happens to a template after its upload.
pub mod FailTemplateAnalysis
