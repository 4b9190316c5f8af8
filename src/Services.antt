-- ===== src/Services.antt =====
-- src/app/services: the pure decision logic between the entities and the use cases.
pub mod TaskBackoff
pub mod GenerationRequestRollup
pub mod QcRetryLadder
pub mod InputImageResolution
pub mod SpecInheritance
pub mod SettingsResolver
pub mod CategoryHierarchy
pub mod ImageInspection
pub mod PromptComposition
pub mod ProductReadiness
pub mod CopyValidation
pub mod VariantAxisValidation
pub mod TemplatePlaceholderValidator
pub mod CopyPrompt
