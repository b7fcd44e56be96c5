-- ===== src/Api/Wake.antt =====
-- The endpoints of app/api/wake.py.
pub mod Laws
use wol_monkey.Common.{
  ℕ, String, Bool, true, false, ◌&&◌, Option, none, some, ◌==◌, leb, some_if_text, if◌then◌else◌,
}
use wol_monkey.Domain.Attempt.{AttemptStatus, pending, sent}
use wol_monkey.Domain.Machine.{WakeStrategy, value, probe_host}
use wol_monkey.Domain.Probe.{ProbeResult}
use wol_monkey.Domain.Records.{Machine, Attempt, WakePayload, request}
use wol_monkey.Host.{Host}
use wol_monkey.Exec.{
  Exec, Error, pure, raise, guard, commit, catch, ◌>>=◌, ◌>>◌, authentication, wake_error,
  value_error, runtime_error, integrity_error, data_error, multiple_results, other, http,
}
use wol_monkey.Persistence.Machines
use wol_monkey.Persistence.Attempts
use wol_monkey.Infra.StateProbe.{probe}
use wol_monkey.Services.Wake
use wol_monkey.Services.Wake.{WakeArgs}
use wol_monkey.Worker.Queue
use wol_monkey.Api.Security.{
  Request, get_csrf_protected_user, get_api_token, get_user_from_session_or_token,
}

pub record WakeRequest : Type 0 where
  pub ensure_online : Bool
  pub poll_timeout_s : ℕ
  pub strategy : Option WakeStrategy

pub record WakeResponse : Type 0 where
  pub attempt_id : String
  pub status : AttemptStatus

-- `body.strategy.value if body.strategy else None`
abbrev pub strategy_value : Option WakeStrategy → Option String
strategy_value none = none
strategy_value (some s) = some (value s)

-- `body.strategy.value if body.strategy else machine.wake_strategy`
abbrev pub value_or : Option WakeStrategy → String → String
value_or none default = default
value_or (some s) default = value s

abbrev pub timeout_fits : WakeRequest → Bool
timeout_fits b = leb 10 b.poll_timeout_s && leb b.poll_timeout_s 600

-- `except WakeError`: any other exception goes on.
unfoldable pub except_wake_error : Error → Exec String
except_wake_error e = elim e.kind [
  | wake_error ↦ raise (http 422) e.detail
  | authentication ↦ raise e.kind e.detail
  | value_error ↦ raise e.kind e.detail
  | runtime_error ↦ raise e.kind e.detail
  | integrity_error ↦ raise e.kind e.detail
  | data_error ↦ raise e.kind e.detail
  | multiple_results ↦ raise e.kind e.detail
  | other ↦ raise e.kind e.detail
  | http n ↦ raise e.kind e.detail
]

module _ (h : Host) where
  unfoldable pub found_or_404 : Option Machine → Exec Machine
  found_or_404 none = raise (http 404) "Machine not found"
  found_or_404 (some m) = pure m

  unfoldable pub queued_payload : String → WakeRequest → String → String → WakePayload
  queued_payload machine_id body user_id attempt_id = record {
    machine_id = machine_id;
    attempt_id = attempt_id;
    ensure_online = body.ensure_online;
    poll_timeout_s = body.poll_timeout_s;
    strategy_override = strategy_value body.strategy;
    actor_type = "user";
    actor_id = user_id;
  }

  -- The body of the endpoint, for a user who has been checked.
  unfoldable pub queue_wake : String → WakeRequest → String → Exec WakeResponse
  unfolding found_or_404
  queue_wake machine_id body user_id = do
    found ← Machines.get_by_id h machine_id
    machine ← found_or_404 found
    attempt ← Attempts.create h (record {
      machine_id = machine_id;
      actor_type = "user";
      actor_id = user_id;
      strategy = value_or body.strategy machine.wake_strategy;
      ensure_online = body.ensure_online;
      poll_timeout_s = body.poll_timeout_s;
    })
    commit
    job ←
        Queue.enqueue h machine_id attempt.id "wake"
          (request (queued_payload machine_id body user_id attempt.id))
    pure (record { attempt_id = attempt.id; status = pending })

  unfoldable pub wake_machine : Request → String → WakeRequest → Exec WakeResponse
  wake_machine r machine_id body = do
    user ← get_csrf_protected_user h r
    guard (timeout_fits body) (http 422) "validation"
    queue_wake machine_id body user.id

  unfoldable pub direct_args : String → WakeRequest → String → WakeArgs
  direct_args machine_id body token_id = record {
    machine_id = machine_id;
    actor_type = "api_token";
    actor_id = token_id;
    ensure_online = body.ensure_online;
    poll_timeout_s = body.poll_timeout_s;
    strategy_override = strategy_value body.strategy;
  }

  unfoldable pub wake_machine_direct : Request → String → WakeRequest → Exec WakeResponse
  wake_machine_direct r machine_id body = do
    token ← get_api_token h r
    guard (timeout_fits body) (http 422) "validation"
    attempt_id ← catch (Wake.wake h (direct_args machine_id body token.id)) except_wake_error
    pure (record { attempt_id = attempt_id; status = sent })

  unfoldable pub attempt_or_404 : String → Option Attempt → Exec Attempt
  attempt_or_404 machine_id none = raise (http 404) "Attempt not found"
  attempt_or_404 machine_id (some a) =
      if a.machine_id == machine_id then pure a else raise (http 404) "Attempt not found"

  unfoldable pub get_attempt_status : Request → String → String → Exec Attempt
  unfolding attempt_or_404
  get_attempt_status r machine_id attempt_id = do
    user ← get_user_from_session_or_token h r
    found ← Attempts.get_by_id h attempt_id
    attempt_or_404 machine_id found

  unfoldable pub machine_status : Request → String → Exec ProbeResult
  unfolding found_or_404
  machine_status r machine_id = do
    user ← get_user_from_session_or_token h r
    found ← Machines.get_by_id h machine_id
    m ← found_or_404 found
    probe h machine_id (probe_host m) m.ssh_port (some_if_text m.hostname m.ip_address)
