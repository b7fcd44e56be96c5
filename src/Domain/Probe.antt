-- ===== src/Domain/Probe.antt =====
-- app/domain/probe.py
use wol_monkey.Common.{ℕ, String, Bool, ◌||◌, if◌then◌else◌}

pub data ProbeState : Type 0 where
  online offline unknown : ProbeState

pub record ProbeResult : Type 0 where
  pub machine_id : String
  pub ping_ok : Bool
  pub tcp_ssh_ok : Bool
  pub observed_at : ℕ

abbrev pub derived_state : ProbeResult → ProbeState
derived_state r = if r.ping_ok || r.tcp_ssh_ok then online else offline
