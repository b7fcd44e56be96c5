-- ===== src/Tests/Queue.antt =====
-- Two workers at one table of jobs; and one request with the worker's round after it.
use wol_monkey.Common.{
  ℕ, String, ◌≡◌, refl, none, List, [], ◌∷◌, any, min_by, select, find, update_where,
}
use wol_monkey.Domain.Records.{Job, queued, failure}
use wol_monkey.Common.{◌++◌, ◌==◌, ◌+◌, ◌≤◌, false, inl, inr}
use wol_monkey.Domain.Machine.{udp_broadcast}
use wol_monkey.Domain.Records.{done}
use wol_monkey.World.{World, Db}
use wol_monkey.Exec.{Result, ok}
use wol_monkey.Persistence.Machines
use wol_monkey.Persistence.Attempts
use wol_monkey.Persistence.Attempts.Laws.{with_attempts}
use wol_monkey.Services.Wake.Laws.{settled, transmit, at_send, pending_row}
use wol_monkey.Worker.Queue.{enqueue, start}
use wol_monkey.Worker.Queue.Laws.{with_jobs}
use wol_monkey.Worker.Process.{over, work_once}
use wol_monkey.Worker.Process.Shutdown.{IsIdle, Stops, run_worker-Stops}
use wol_monkey.Worker.Process.Round.{at_work, queued_args, queue_wake-work_once}
use wol_monkey.Api.Wake.{WakeRequest, queue_wake}
use wol_monkey.Api.Wake.Laws.{queued_attempt, wake_job}
use wol_monkey.Tests.Fixtures.{quiet_host, quiet_host-IsLawful, nas, small_db, small_world}
use wol_monkey.Worker.Queue.Workers.{
  Shared, lock_next, commit_claim, Steps, stop, then, lock, commit,
}
use wol_monkey.Worker.Queue.Workers.Fair.{Once}
use wol_monkey.Worker.Queue.Workers.Laws.{fresh_table, Steps-Once}

abbrev job_at : String → ℕ → Job
job_at id at = record {
  id = id;
  machine_id = "nas";
  attempt_id = id;
  job_type = "wake";
  status = queued;
  payload = failure "";
  claimed_at = none;
  created_at = at;
}

abbrev two_jobs : List Job
two_jobs = job_at "late" 5 ∷ job_at "early" 3 ∷ []

-- Both have locked a row before the second one commits.
abbrev both_locked : Shared
both_locked = lock_next 2 (lock_next 1 (fresh_table two_jobs))

abbrev both_given : Shared
both_given = commit_claim 1 8 (commit_claim 2 7 both_locked)

interleaved : Steps (fresh_table two_jobs) both_given
unfolding lock_next min_by select any
interleaved = then (lock 1 (fresh_table two_jobs) refl) (
    then (lock 2 (lock_next 1 (fresh_table two_jobs)) refl) (
      then (commit 2 7 both_locked)
        (then (commit 1 8 (commit_claim 2 7 both_locked)) (stop both_given))))

two_given : both_given.given ≡ (1, "early") ∷ (2, "late") ∷ []
unfolding lock_next commit_claim min_by select any find update_where
two_given = refl

Steps-Once_example : Once both_given.given
Steps-Once_example = Steps-Once two_jobs both_given interleaved

abbrev plain_wake : WakeRequest
plain_wake = record { ensure_online = false; poll_timeout_s = 60; strategy = none }

-- What the request has committed, as a worker's process sees it.
abbrev left_by_request : Db
left_by_request = (queue_wake quiet_host "nas" plain_wake "alice" small_world).1.saved

abbrev worker_world : World
worker_world = record small_world { db = left_by_request; saved = left_by_request; calls = 20 }

new_attempt_id : any (λ a. a.id == quiet_host.uuid 21) left_by_request.attempts ≡ false
unfolding queue_wake any find Machines.get_by_id Attempts.create enqueue
new_attempt_id = refl

abbrev working : World
working =
    at_work quiet_host worker_world (wake_job quiet_host "nas" plain_wake "alice" "nas" small_world)

abbrev sending : Result (Unit {0}) × World
sending = transmit quiet_host nas udp_broadcast (
    at_send quiet_host (queued_args quiet_host "nas" plain_wake "alice" small_world) nas "nas"
      working)

queue_wake-work_once_example :
    ((work_once quiet_host 0 worker_world).0 ≡ ok over)
    × ((work_once quiet_host 0 worker_world).1.saved
        ≡ with_attempts
            (([] ++ queued_attempt quiet_host "nas" plain_wake "alice" nas "nas" small_world ∷ [])
              ++ settled sending.0 (quiet_host.clock sending.1.calls + sending.1.slept) (
                  pending_row quiet_host
                    (queued_args quiet_host "nas" plain_wake "alice" small_world)
                    nas
                    "nas"
                    working)
                ∷ [])
            (with_jobs
              (record (start 20 (wake_job quiet_host "nas" plain_wake "alice" "nas" small_world)) {
                status = done;
              }
                ∷ [])
              small_db))
unfolding find any select
queue_wake-work_once_example =
    queue_wake-work_once quiet_host 0 quiet_host-IsLawful "nas" "alice" "nas" plain_wake nas
      udp_broadcast small_world worker_world refl refl refl refl refl refl refl refl refl
      new_attempt_id

abbrev waiting : World
waiting = record small_world { saved = record small_db { jobs = two_jobs } }

two_jobs-IsIdle : IsIdle quiet_host two_jobs
two_jobs-IsIdle k (inl same) = (refl, λ e. cc)
two_jobs-IsIdle k (inr (inl same)) = (refl, λ e. cc)
two_jobs-IsIdle k (inr (inr m)) = absurd m.1

run_worker-Stops_example :
    (enough : ℕ) × ((fuel : ℕ) → enough ≤ fuel → Stops quiet_host fuel 2 (false ∷ []) waiting)
run_worker-Stops_example = run_worker-Stops quiet_host 2 (false ∷ []) waiting two_jobs-IsIdle
