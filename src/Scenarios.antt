-- ===== src/Scenarios.antt =====
-- Concrete rows and calls at which the theorems are applied.
pub mod Data
mod Queue
mod Lives
mod Decisions
mod UseCases
pub mod Pipeline
mod Studio
mod Catalog
mod Copy
mod Prompt
mod Limits
