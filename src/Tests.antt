-- ===== src/Tests.antt =====
-- Runs of the modelled functions on concrete inputs, and instances of the theorems.
mod Memory
mod Calendar
mod Goals
mod GoalsService
mod Integrations
mod Budgets
mod External
mod Categories
mod Scopes
mod PaymentSources
