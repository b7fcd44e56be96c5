-- ===== src/Infra/StateProbe.antt =====
-- StateProbe of app/infra/state_probe.py, with its default timeouts. `_ping` and `_tcp_connect` turn
-- every failure into False; each `gather` makes both calls, one after the other.
pub mod Laws
use wol_monkey.Common.{
  ℕ, String, Bool, true, false, List, [], ◌∷◌, not, ◌&&◌, ◌||◌, Option, none, some, ◌==◌,
  if◌then◌else◌,
}
use wol_monkey.Domain.Probe.{ProbeResult}
use wol_monkey.Host.{Host, Outcome, exited_ok, exited, not_started}
use wol_monkey.Exec.{Exec, pure, call, now, ◌>>=◌}

abbrev pub Signals : Type 0
Signals = Bool × Bool

-- `ip_fallback and ip_fallback != host`
abbrev pub fallback_host : Option String → String → Option String
fallback_host none host = none
fallback_host (some ip) host = if ip == "" || ip == host then none else some ip

-- The arguments of the ping process; its timeout is two seconds.
abbrev pub ping_command : String → List String
ping_command host = "-c" ∷ "1" ∷ "-W" ∷ "2" ∷ host ∷ []

abbrev answered : Outcome → Bool
answered exited_ok = true
answered (exited code stderr) = false
answered (not_started message) = false

abbrev connected : Option String → Bool
connected none = true
connected (some message) = false

module _ (h : Host) where
  abbrev pub ping : ℕ → String → Bool
  ping n host = answered (h.ping n (ping_command host))

  abbrev pub tcp_connect : ℕ → String → ℕ → Bool
  tcp_connect n host port = connected (h.open_connection n host port)

  unfoldable pub gather : String → ℕ → Exec Signals
  gather host port = do n ← call; m ← call; pure (ping n host, tcp_connect m host port)

  unfoldable pub retry : Signals → Option String → ℕ → Exec Signals
  retry first none port = pure first
  retry first (some ip) port = if first.0 || first.1 then pure first else gather ip port

  unfoldable pub probe : String → String → ℕ → Option String → Exec ProbeResult
  unfolding retry gather
  probe machine_id host ssh_port ip_fallback = do
    first ← gather host ssh_port
    signals ← retry first (fallback_host ip_fallback host) ssh_port
    at ← now h
    pure (record {
      machine_id = machine_id;
      ping_ok = signals.0;
      tcp_ssh_ok = signals.1;
      observed_at = at;
    })
