-- ===== src/Services.antt =====
-- app/services: the operations that the handlers and the worker call.
pub mod Setup
pub mod Settings
pub mod Auth
pub mod Wake
pub mod EnsureOnline
