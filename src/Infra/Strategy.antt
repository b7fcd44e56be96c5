-- ===== src/Infra/Strategy.antt =====
-- The strategies of app/infra/wake_strategy.py.
pub mod Laws
use wol_monkey.Common.{
  ℕ, String, ◌<>◌, Option, none, some, List, [], ◌∷◌, ◌++◌, ◌==◌, text_or, length, if◌then◌else◌,
}
use wol_monkey.Domain.Machine.{WakeStrategy, etherwake, udp_broadcast}
use wol_monkey.Host.{Host, Outcome, exited_ok, exited, not_started}
use wol_monkey.World.{World, Sent, etherwake_args, datagram}
use wol_monkey.Exec.{Exec, pure, raise, call, ◌>>=◌, ◌>>◌, value_error, runtime_error, other}
use wol_monkey.Infra.Packet.{codes, clean, same_code, build_magic_packet}

abbrev pub magic_port : ℕ
magic_port = 9

abbrev pub magic_broadcast : String
magic_broadcast = "255.255.255.255"

abbrev log_sent : Sent → Exec (Unit {0})
log_sent s w = (ok_unit, record w { sent = w.sent ++ s ∷ [] })
  where
    ok_unit : wol_monkey.Exec.Result (Unit {0})
    ok_unit = wol_monkey.Exec.Result.ok tt

-- `if interface:`
abbrev interface_args : Option String → List String
interface_args none = []
interface_args (some i) = if i == "" then [] else "-i" ∷ i ∷ []

-- The command line after the program's name.
unfoldable pub etherwake_command : String → Option String → List String
etherwake_command mac interface = interface_args interface ++ mac ∷ []

module _ (h : Host) where
  unfoldable pub report : Outcome → Exec (Unit {0})
  report exited_ok = pure tt
  report (exited rc stderr) = raise runtime_error ("etherwake failed (rc=" <> rc <> "): " <> stderr)
  report (not_started message) = raise other message

  unfoldable pub wake_etherwake : String → Option String → Exec (Unit {0})
  unfolding report
  wake_etherwake mac interface = do
    n ← call
    log_sent (etherwake_args (etherwake_command mac interface))
    report (h.etherwake n (etherwake_command mac interface))

  -- What `_build_magic_packet` says of a text that it refuses, by the length of the cleaned text.
  abbrev refusal : String → String
  refusal mac =
      if same_code (length (clean (codes mac))) 12
      then h.fromhex_error (clean (codes mac))
      else "Invalid MAC address: " <> h.repr mac

  unfoldable pub packet_or_raise : String → Option (List ℕ) → Exec (List ℕ)
  packet_or_raise mac none = raise value_error (refusal mac)
  packet_or_raise mac (some packet) = pure packet

  unfoldable pub sent_or_raise : Option String → Exec (Unit {0})
  sent_or_raise none = pure tt
  sent_or_raise (some message) = raise other message

  unfoldable pub wake_udp : String → Option String → Exec (Unit {0})
  unfolding packet_or_raise sent_or_raise
  wake_udp mac broadcast = do
    let target : String = text_or broadcast magic_broadcast
    packet ← packet_or_raise mac (build_magic_packet (codes mac))
    n ← call
    log_sent (datagram packet target magic_port)
    sent_or_raise (h.send_udp n packet target magic_port)

  -- `strategy.wake(mac=…, interface=…, broadcast=…)`
  unfoldable pub wake_by : WakeStrategy → String → Option String → Option String → Exec (Unit {0})
  wake_by etherwake mac interface broadcast = wake_etherwake mac interface
  wake_by udp_broadcast mac interface broadcast = wake_udp mac broadcast

  unfoldable pub get_strategy : String → Exec WakeStrategy
  get_strategy name =
      if name == "etherwake"
      then pure etherwake
      else if name == "udp_broadcast"
      then pure udp_broadcast
      else raise value_error (
          "Unknown wake strategy: "
          <> h.repr name
          <> ". Choose from ['etherwake', 'udp_broadcast']")
