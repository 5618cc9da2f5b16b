-- ===== src/Auth.antt =====
-- src/auth: accounts, sessions, roles and the guards of every request.
pub mod Store
pub mod Permissions
pub mod Users
pub mod Ownership
pub mod Authority
pub mod Sessions
pub mod Guard
pub mod Accounts
pub mod Invitations
pub mod Tests
mod AccountTests
