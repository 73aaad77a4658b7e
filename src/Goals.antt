-- ===== src/Goals.antt =====
-- Savings goals: backend/src/modules/goals and frontend/src/lib/goals.ts.
pub mod Store
pub mod Rules
pub mod Service
pub mod Retry
pub mod Requests
pub mod Plan
pub mod Preview
