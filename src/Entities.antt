-- ===== src/Entities.antt =====
-- src/app/entities: the domain entities with a life cycle. A method that raises returns `err` and
-- a method that mutates returns the new record.
pub mod History
pub mod GenerationItem
pub mod GenerationRequest
pub mod CatalogImage
pub mod ContentDraft
pub mod Publication
pub mod CatalogTemplate
pub mod Product
pub mod ProductInputImage
pub mod SpecSnapshot
pub mod Asset
pub mod ProductVariant
pub mod SocialAccount
pub mod Category
pub mod Setting
