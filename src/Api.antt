-- ===== src/Api.antt =====
-- app/api: the HTTP endpoints. Each is an action that `with_session` runs; an HTTPException is an
-- exception of the kind `http`.
pub mod RateLimit
pub mod Security
pub mod Auth
pub mod Setup
pub mod Machines
pub mod Wake
pub mod Web
pub mod App
pub mod Atomic
pub mod System
