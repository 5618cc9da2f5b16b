-- ===== src/Reports.antt =====
-- src/reports.
pub mod Timesheet
pub mod Tests
