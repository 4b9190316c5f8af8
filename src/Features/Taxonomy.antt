-- ===== src/Features/Taxonomy.antt =====
-- src/app/features/taxonomy: the category tree.
pub mod CreateCategory
pub mod MoveCategory
