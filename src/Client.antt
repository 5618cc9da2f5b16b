-- ===== src/Client.antt =====
-- src/clickup/clickup.client.ts.
pub mod Requests
pub mod Pages
pub mod Windows
pub mod Streams
pub mod Tests
