-- ===== src/Persistence.antt =====
-- app/persistence/repositories.py: one module for each repository. A text that is compared with a
-- UUID column is first encoded by the driver, which raises for a text that is no UUID.
pub mod Users
pub mod Machines
pub mod Attempts
pub mod Sessions
pub mod Tokens
pub mod Setup
pub mod Settings
pub mod Links
pub mod Ports
