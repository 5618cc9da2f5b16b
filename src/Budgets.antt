-- ===== src/Budgets.antt =====
-- src/budgets.
pub mod BusinessDays
mod Tests
