-- ===== src/Features/Content.antt =====
-- src/app/features/content: generating, editing and reviewing copy.
pub mod Gate
pub mod ReviewContentDrafts
pub mod EditContentDraft
pub mod CompleteContentDraftGeneration
pub mod GenerateContentDraft
pub mod StartContentDraftGeneration
