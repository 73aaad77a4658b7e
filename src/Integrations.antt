-- ===== src/Integrations.antt =====
-- The integration API: backend/src/modules/integrations.
pub mod RateLimit
pub mod Contract
pub mod Ledger
pub mod Ownership
pub mod Transactions
pub mod Scopes
