-- ===== src/Categories.antt =====
-- Categories: backend/src/modules/categories.
pub mod Rows
pub mod Hierarchy
pub mod Checks
pub mod Service
pub mod Forest
pub mod Requests
pub mod Listing
pub mod Reordering
