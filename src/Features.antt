-- ===== src/Features.antt =====
-- src/app/features: the use cases, each one transaction.
pub mod Queue
pub mod Publishing
pub mod Generation
pub mod Settings
pub mod Taxonomy
pub mod Outbox
pub mod Products
pub mod Content
pub mod Templates
