-- ===== src/Cost.antt =====
-- src/time-entries/cost-calculator.service.ts: what a time entry costs.
pub mod Calculator
pub mod Cache
pub mod Coverage
pub mod Recalculation
mod Tests
