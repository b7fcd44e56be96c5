-- ===== src/Services/EnsureOnline.antt =====
-- EnsureOnlineService of app/services/ensure_online.py. The column `started_at` is never NULL, so
-- the branch that replaces a missing start is not there. The loop takes fuel, and its result is
-- `none` if the fuel runs out.
pub mod Laws
use wol_monkey.Common.{
  ℕ, zero, suc, ◌+◌, ◌*◌, String, ◌<>◌, Bool, true, false, Option, none, some, leb, text_or,
  some_if_text, if◌then◌else◌,
}
use wol_monkey.Domain.Attempt.{AttemptStatus, waking, online, failed, timeout}
use wol_monkey.Domain.Machine.{probe_host}
use wol_monkey.Domain.Probe.{ProbeState, ProbeResult, derived_state}
use wol_monkey.Domain.Records.{Machine, Attempt}
use wol_monkey.Host.{Host}
use wol_monkey.Exec.{Exec, pure, now, sleep, second, ◌>>=◌, ◌>>◌}
use wol_monkey.Persistence.Machines
use wol_monkey.Persistence.Attempts
use wol_monkey.Infra.StateProbe.{probe}

-- 5 seconds
abbrev pub poll_interval : ℕ
poll_interval = 5 * second

-- `elapsed >= timeout_s`, on microseconds
abbrev pub deadline : Attempt → ℕ
deadline a = a.started_at + a.poll_timeout_s * second

abbrev pub is_online : ProbeState → Bool
is_online ProbeState.online = true
is_online ProbeState.offline = false
is_online ProbeState.unknown = false

module _ (h : Host) where
  unfoldable pub finish : String → AttemptStatus → Option String → Exec (Option AttemptStatus)
  finish attempt_id status error = do
    at ← now h
    Attempts.update_status h attempt_id status error (some at)
    pure (some status)

  unfoldable pub timeout_message : Attempt → String
  timeout_message a = "Machine did not come online within " <> h.str a.poll_timeout_s <> "s"

  unfoldable pub probe_once : Machine → Exec ProbeResult
  probe_once m = probe h m.id (probe_host m) m.ssh_port (some_if_text m.hostname m.ip_address)

  -- One round is cut in two where it decides: on the time, and on the probe.
  unfoldable pub after_probe :
      String → Exec (Option AttemptStatus) → Bool → Exec (Option AttemptStatus)
  after_probe attempt_id again true = finish attempt_id online none
  after_probe attempt_id again false = do sleep h poll_interval; again

  unfoldable pub round :
      String → Attempt → Machine → Exec (Option AttemptStatus) → Bool → Exec (Option AttemptStatus)
  round attempt_id a m again true = finish attempt_id timeout (some (timeout_message a))
  round attempt_id a m again false = do
    result ← probe_once m
    after_probe attempt_id again (is_online (derived_state result))

  unfoldable pub poll : ℕ → String → Attempt → Machine → Exec (Option AttemptStatus)
  poll zero attempt_id a m = pure none
  poll (suc fuel) attempt_id a m = do
    at ← now h
    round attempt_id a m (poll fuel attempt_id a m) (leb (deadline a) at)

  unfoldable pub on_machine : ℕ → String → Attempt → Option Machine → Exec (Option AttemptStatus)
  on_machine fuel attempt_id a none = finish attempt_id failed (some "Machine not found")
  on_machine fuel attempt_id a (some m) = do
    Attempts.update_status h attempt_id waking none none
    poll fuel attempt_id a m

  unfoldable pub on_attempt : ℕ → String → Option Attempt → Exec (Option AttemptStatus)
  on_attempt fuel attempt_id none = pure (some failed)
  on_attempt fuel attempt_id (some a) = do
    m ← Machines.get_by_id h a.machine_id
    on_machine fuel attempt_id a m

  unfoldable pub run : ℕ → String → Exec (Option AttemptStatus)
  unfolding on_attempt on_machine
  run fuel attempt_id = do a ← Attempts.get_by_id h attempt_id; on_attempt fuel attempt_id a
