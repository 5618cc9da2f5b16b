-- ===== src/Web.antt =====
-- The helpers of the web application, apps/web/src/lib, that compute.
pub mod Csv
pub mod Tests
