-- ===== src/Worker/Process.antt =====
-- `_process_job` and the loop of `run_worker` in worker/main.py. The polling of a job takes fuel; where
-- it runs out, the handling, the round and the loop have not come to their end either.
pub mod Fuel
pub mod Laws
pub mod Ending
pub mod Round
pub mod Jobs
pub mod Follow
pub mod Shutdown
use wol_monkey.Common.{
  ℕ, ◌*◌, String, Bool, true, false, Option, none, some, List, [], ◌∷◌, text_or, some_if_text, ◌==◌,
  if◌then◌else◌,
}
use wol_monkey.Domain.Attempt.{AttemptStatus}
use wol_monkey.Domain.Records.{Attempt, WakePayload, Payload, request, failure}
use wol_monkey.Host.{Host}
use wol_monkey.World.{World}
use wol_monkey.Exec.{Exec, Error, Result, pure, sleep, commit, rollback, catch, second, ◌>>=◌, ◌>>◌}
use wol_monkey.Persistence.Attempts
use wol_monkey.Services.Wake.{WakeArgs, wake}
use wol_monkey.Services.EnsureOnline
use wol_monkey.Worker.Queue

-- The defaults that `payload.get` gives where the keys are missing.
unfoldable pub read_payload : Payload → WakePayload
read_payload (request p) = p
read_payload (failure message) = record {
  machine_id = "";
  attempt_id = "";
  ensure_online = false;
  poll_timeout_s = 120;
  strategy_override = none;
  actor_type = "system";
  actor_id = "worker";
}

-- `str(v) if v else None`
abbrev truthy : Option String → Option String
truthy none = none
truthy (some s) = if s == "" then none else some s

unfoldable pub job_args : WakePayload → WakeArgs
job_args p = record {
  machine_id = p.machine_id;
  actor_type = p.actor_type;
  actor_id = p.actor_id;
  ensure_online = p.ensure_online;
  poll_timeout_s = p.poll_timeout_s;
  strategy_override = truthy p.strategy_override;
}

-- `active.id if active is not None else attempt_id`
unfoldable pub run_id : Option Attempt → String → String
run_id none attempt_id = attempt_id
run_id (some active) attempt_id = active.id

-- 2 seconds
abbrev pub poll_interval : ℕ
poll_interval = 2 * second

-- The global `_shutdown` after a signal.
abbrev pub handle_signal : Bool → Bool
handle_signal shutdown = true

-- `unfinished`: a round of the loop has not come to its end.
pub data LoopEnd : Type 0 where
  stopped still_running unfinished : LoopEnd

pub data Sending : Type 0 where
  sent_ok gave_up : Sending

-- Whether something has come to its end.
pub data Handling : Type 0 where
  over out_of_fuel : Handling

-- What the polling's answer says of it.
abbrev pub handling : Option AttemptStatus → Handling
handling none = out_of_fuel
handling (some final_status) = over

unfoldable pub next_round : Exec LoopEnd → Handling → Exec LoopEnd
next_round again over = again
next_round again out_of_fuel = pure unfinished

module _ (h : Host) where
  unfoldable pub close_job : String → Handling → Exec Handling
  close_job job_id over = do Queue.mark_done h job_id; commit; pure over
  close_job job_id out_of_fuel = pure out_of_fuel

  unfoldable pub end_round : Handling → Exec Handling
  end_round over = do sleep h poll_interval; pure over
  end_round out_of_fuel = pure out_of_fuel

module _ (h : Host) (fuel : ℕ) where
  -- `if run_id:`; the final status is only logged.
  unfoldable pub run_if_named : Bool → String → Exec Handling
  run_if_named true id = pure over
  run_if_named false id = do final_status ← EnsureOnline.run h fuel id; pure (handling final_status)

  unfoldable pub ensure : Bool → WakePayload → Exec Handling
  ensure false p = pure over
  ensure true p = do
    active ← Attempts.get_active_for_machine h p.machine_id
    run_if_named (run_id active p.attempt_id == "") (run_id active p.attempt_id)

  -- After a failed wake the job is over, without an exception.
  unfoldable pub after_wake : WakePayload → Sending → Exec Handling
  after_wake p gave_up = pure over
  after_wake p sent_ok = ensure p.ensure_online p

  unfoldable pub process_job : Payload → Exec Handling
  unfolding after_wake ensure run_if_named
  process_job payload = do
    let p : WakePayload = read_payload payload
    sending ← catch (do id ← wake h (job_args p); pure sent_ok) (λ e. pure gave_up)
    after_wake p sending

  -- `async with factory() as session`
  unfoldable pub open_session : Exec (Unit {0})
  open_session w = (Result.ok tt, record w { db = w.saved })

  unfoldable pub finish_job : String → Payload → Exec Handling
  unfolding close_job
  finish_job job_id payload = do handled ← process_job payload; close_job h job_id handled

  unfoldable pub run_job : String → Payload → Exec Handling
  unfolding open_session finish_job
  run_job job_id payload = do
    open_session
    catch (finish_job job_id payload)
        (λ e. do rollback; Queue.mark_error h job_id e.detail; pure over)

  unfoldable pub run_claimed : Option (String × Payload) → Exec Handling
  run_claimed none = pure over
  run_claimed (some (job_id, payload)) = run_job job_id payload

  -- One round of the loop: exceptions are logged, and the worker sleeps.
  unfoldable pub work_once : Exec Handling
  unfolding run_claimed end_round
  work_once = do
    handled ← catch (do job ← Queue.claim_next h; run_claimed job) (λ e. pure over)
    end_round h handled

  -- `while not _shutdown`, for a list that tells of each round whether a signal arrives in it. The
  -- loop stops at the head of a round, or is still running when the list ends.
  unfoldable pub run_worker : Bool → List Bool → Exec LoopEnd
  unfolding next_round
  run_worker true arrivals = pure stopped
  run_worker false [] = pure still_running
  run_worker false (arrives ∷ arrivals) = do
    handled ← work_once
    next_round (run_worker (if arrives then handle_signal false else false) arrivals) handled
