-- ===== src/Features/Generation.antt =====
-- src/app/features/generation: rendering attempts and settling requests.
pub mod StartGenerationItemRender
pub mod FailGenerationItemRender
pub mod ReconcileGenerationRequests
pub mod ReviewCatalogImages
pub mod CompleteGenerationItemRender
pub mod CompleteCatalogImageQc
pub mod BulkApproveCatalogImages
pub mod StartCatalogImageQc
