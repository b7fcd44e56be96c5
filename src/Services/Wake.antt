-- ===== src/Services/Wake.antt =====
-- WakeService of app/services/wake.py.
pub mod Laws
use wol_monkey.Common.{ℕ, String, ◌<>◌, Bool, Option, none, some, text_or}
use wol_monkey.Domain.Attempt.{sent, failed}
use wol_monkey.Domain.Records.{Machine, Attempt}
use wol_monkey.Domain.Machine.{WakeStrategy}
use wol_monkey.Host.{Host}
use wol_monkey.Exec.{Exec, Error, pure, raise, guard, now, catch, ◌>>=◌, ◌>>◌, wake_error}
use wol_monkey.Persistence.Machines
use wol_monkey.Persistence.Attempts
use wol_monkey.Persistence.Attempts.{NewAttempt}
use wol_monkey.Infra.Strategy.{wake_by, get_strategy}

pub record WakeArgs : Type 0 where
  pub machine_id : String
  pub actor_type : String
  pub actor_id : String
  pub ensure_online : Bool
  pub poll_timeout_s : ℕ
  pub strategy_override : Option String

-- `strategy_override or machine.wake_strategy`
abbrev pub strategy_name : WakeArgs → Machine → String
strategy_name args m = text_or args.strategy_override m.wake_strategy

unfoldable pub new_attempt : WakeArgs → Machine → NewAttempt
new_attempt args m = record {
  machine_id = args.machine_id;
  actor_type = args.actor_type;
  actor_id = args.actor_id;
  strategy = strategy_name args m;
  ensure_online = args.ensure_online;
  poll_timeout_s = args.poll_timeout_s;
}

module _ (h : Host) where
  unfoldable pub found_or_raise : String → Option Machine → Exec Machine
  found_or_raise machine_id none =
      raise wake_error ("Machine " <> h.repr machine_id <> " not found")
  found_or_raise machine_id (some m) = pure m

  -- The body of the `try`, and its handler.
  unfoldable pub send : Attempt → Machine → WakeStrategy → Exec (Unit {0})
  send attempt m strategy = do
    wake_by h strategy m.mac_address m.wake_interface m.broadcast_address
    Attempts.update_status h attempt.id sent none none

  unfoldable pub record_failure : Attempt → Error → Exec (Unit {0})
  record_failure attempt e = do
    at ← now h
    Attempts.update_status h attempt.id failed (some e.detail) (some at)
    raise wake_error ("Wake failed: " <> e.detail)

  unfoldable pub attempt_wake : Attempt → Machine → String → Exec String
  attempt_wake attempt m name = do
    strategy ← get_strategy h name
    catch (send attempt m strategy) (record_failure attempt)
    pure attempt.id

  unfoldable pub wake : WakeArgs → Exec String
  unfolding found_or_raise
  wake args = do
    found ← Machines.get_by_id h args.machine_id
    m ← found_or_raise args.machine_id found
    guard m.enabled wake_error ("Machine " <> h.repr args.machine_id <> " is disabled")
    attempt ← Attempts.create h (new_attempt args m)
    attempt_wake attempt m (strategy_name args m)
