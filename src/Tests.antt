-- ===== src/Tests.antt =====
-- The theorems at concrete inputs.
pub mod Fixtures
mod Wakes
mod Accounts
mod Requests
mod System
mod Web
mod Queue
mod Tables
mod Migrations
