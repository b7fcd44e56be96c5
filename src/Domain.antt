-- ===== src/Domain.antt =====
-- app/domain: the entities and the records that the services exchange.
pub mod Attempt
pub mod Machine
pub mod Probe
pub mod Records
pub mod Ports
