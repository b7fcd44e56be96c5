-- ===== src/Domain/Machine.antt =====
-- app/domain/machine.py: the strategies' names and the host that is probed.
use wol_monkey.Common.{String, text_or}
use wol_monkey.Domain.Records.{Machine}

pub data WakeStrategy : Type 0 where
  etherwake udp_broadcast : WakeStrategy

-- The value of the string enumeration.
abbrev pub value : WakeStrategy → String
value etherwake = "etherwake"
value udp_broadcast = "udp_broadcast"

-- `hostname or ip_address`
abbrev pub probe_host : Machine → String
probe_host m = text_or m.hostname m.ip_address
