-- ===== src/Table.antt =====
-- A tenant-scoped table: its rows in the order of insertion. `get` is the `select` by tenant and id
-- of every repository; `save` is `update`, the flush of the one tracked row with its primary key;
-- `insert` is `add`. Row-level security adds nothing to the tenant test that each query makes.
mod Rows
pub mod Laws
pub mod Counts
pub mod Sorting
pub use Rows.*
