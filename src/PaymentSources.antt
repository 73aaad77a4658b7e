-- ===== src/PaymentSources.antt =====
-- Payment sources: backend/src/modules/payment-sources.
pub mod Rows
pub mod Service
pub mod Tidy
pub mod Requests
