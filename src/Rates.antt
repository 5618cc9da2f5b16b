-- ===== src/Rates.antt =====
-- src/rates and src/time-entries/cost-calculator.service.ts: what an hour of an assignee costs on a day.
pub mod Plan
pub mod Table
pub mod Succession
pub mod Capping
pub mod Creation
pub mod Service
pub mod Upkeep
pub mod History
pub mod Tests
