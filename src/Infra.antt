-- ===== src/Infra.antt =====
-- app/infra: sending wake packets, and probing.
pub mod Packet
pub mod Strategy
pub mod StateProbe
