-- ===== src/Budgets.antt =====
-- Budgets: backend/src/modules/budgets.
pub mod Progress
