-- ===== src/Tests/Wakes.antt =====
-- Waking, following and queueing at concrete inputs.
use wol_monkey.Common.{
  ℕ, ◌+◌, ◌≤◌, ◌≢◌, ◌↔◌, String, ◌≡◌, refl, true, false, none, some, [], ◌∷◌, ◌==◌, ◌<◌, inl, inr,
  find, any, select, In, min_by, update_where,
}
use native.Mathlib.Omega.{arith}
use wol_monkey.Domain.Attempt.{
  can_transition_to, is_terminal, AttemptStatus, pending, sent, waking, failed,
}
use wol_monkey.Domain.Attempt.Laws.{Lives, here, step, left, Lives-bounded, is_terminal_iff}
use wol_monkey.Domain.Machine.{udp_broadcast}
use wol_monkey.Domain.Records.{Attempt, Job, queued, WakePayload, request}
use wol_monkey.World.{World, Db}
use wol_monkey.Exec.{Result, ok, err, wake_error}
use mathlib.Core.Path.{subst}
use mathlib.Core.Option.{Option}
use wol_monkey.Persistence.Attempts.{is_active_for, with_status}
use wol_monkey.Persistence.Attempts.Laws.{with_attempts}
use wol_monkey.Infra.Packet.{
  build_magic_packet, clean, is_separator, upper, from_hex, is_blank, hex_digit,
}
use wol_monkey.Infra.Strategy.{wake_by, wake_udp, packet_or_raise, sent_or_raise}
use wol_monkey.Persistence.Machines.{get_by_id}
use wol_monkey.Services.Wake.{WakeArgs, new_attempt, wake}
use wol_monkey.Services.Wake.Laws.{wake_lem, wake_refused, settled, transmit, at_send, pending_row}
use wol_monkey.Services.EnsureOnline.{poll, run}
use wol_monkey.Services.EnsureOnline.Laws.{Ends, updated, poll-Ends, run-Ends, run_no_machine}
use wol_monkey.Worker.Queue.{claim_next, is_queued}
use wol_monkey.Worker.Queue.Laws.{with_jobs, claim_next_oldest, claim_next_apart}
use wol_monkey.Worker.Process.{over, process_job, job_args, run_job}
use wol_monkey.Worker.Process.Ending.{IsOver, run_job-IsOver}
use wol_monkey.Worker.Process.Follow.{process_job-Ends}
use wol_monkey.Worker.Process.Laws.{process_job-attempts, process_job_refused}
use wol_monkey.Api.Wake.{WakeRequest, queue_wake}
use wol_monkey.Api.Wake.Laws.{wake_job, queued_attempt, queue_wake_lem}
use wol_monkey.Tests.Fixtures.{quiet_host, quiet_host-IsLawful, nas, small_db, small_world}

abbrev args : WakeArgs
args = record {
  machine_id = "nas";
  actor_type = "user";
  actor_id = "alice";
  ensure_online = false;
  poll_timeout_s = 10;
  strategy_override = none;
}

-- The world in which the packet has left.
abbrev transmitted : WakeArgs → World → World
transmitted a w = (transmit quiet_host nas udp_broadcast (at_send quiet_host a nas "nas" w)).1

transmit_example :
    transmit quiet_host nas udp_broadcast (at_send quiet_host args nas "nas" small_world)
    ≡ (ok tt, transmitted args small_world)
unfolding wake_by wake_udp packet_or_raise sent_or_raise build_magic_packet clean is_separator upper
    from_hex select is_blank hex_digit
transmit_example = refl

wake_lem_example :
    ((wake quiet_host args small_world).0 ≡ ok "")
    × ((wake quiet_host args small_world).1.db
        ≡ with_attempts
            (settled (ok tt) 3 (pending_row quiet_host args nas "nas" small_world) ∷ [])
            small_db)
unfolding find any
wake_lem_example =
    wake_lem quiet_host quiet_host-IsLawful args nas "nas" udp_broadcast small_world
      (transmitted args small_world) (ok tt) refl refl refl refl refl transmit_example

wake_refused_run :
    (message : String) × (wake quiet_host (record args { machine_id = "tv" }) small_world
      ≡ (err (record { kind = wake_error; detail = message }), small_world))
unfolding find
wake_refused_run =
    wake_refused quiet_host (record args { machine_id = "tv" }) small_world (inr ("tv", refl, refl))

-- An attempt that waits for the machine, from a session that is open.
abbrev first : Attempt
first = record {
  id = "first";
  machine_id = "nas";
  actor_type = "user";
  actor_id = "alice";
  strategy = "udp_broadcast";
  status = sent;
  ensure_online = true;
  poll_timeout_s = 10;
  error = none;
  started_at = 0;
  finished_at = none;
}

abbrev waiting_db : Db
waiting_db = with_attempts (first ∷ []) small_db

abbrev waiting : World
waiting = record small_world { db = waiting_db; saved = waiting_db }

poll-Ends_run :
    Ends quiet_host quiet_host-IsLawful first nas "first" waiting_db
      (poll quiet_host 3 "first" first nas waiting).0
      (poll quiet_host 3 "first" first nas waiting).1
poll-Ends_run =
    poll-Ends quiet_host quiet_host-IsLawful "first" "first" refl first nas 2 waiting (omega arith)

run-Ends_example :
    Ends quiet_host quiet_host-IsLawful first nas "first"
      (updated "first" waking none none waiting_db)
      (run quiet_host 3 "first" waiting).0
      (run quiet_host 3 "first" waiting).1
unfolding find
run-Ends_example =
    run-Ends quiet_host quiet_host-IsLawful "first" "first" refl first nas "nas" 2 waiting refl refl
      refl (omega arith)

abbrev no_machine : World
no_machine = record waiting { db = record waiting_db { machines = [] } }

run_without_machine :
    ((run quiet_host 3 "first" no_machine).0 ≡ ok (some failed))
    × ((run quiet_host 3 "first" no_machine).1.db
        ≡ updated "first" failed (some "Machine not found") (some 0) no_machine.db)
unfolding find
run_without_machine =
    run_no_machine quiet_host quiet_host-IsLawful "first" "first" refl first "nas" 3 no_machine refl
      refl refl

abbrev body : WakeRequest
body = record { ensure_online = false; poll_timeout_s = 10; strategy = none }

queue_wake_lem_example :
    ((queue_wake quiet_host "nas" body "alice" waiting).0
      ≡ ok (record { attempt_id = ""; status = pending }))
    × ((queue_wake quiet_host "nas" body "alice" waiting).1.saved
        ≡ with_jobs (wake_job quiet_host "nas" body "alice" "nas" waiting ∷ []) (
            with_attempts
              (first ∷ queued_attempt quiet_host "nas" body "alice" nas "nas" waiting ∷ [])
              waiting_db))
unfolding find any
queue_wake_lem_example =
    queue_wake_lem quiet_host quiet_host-IsLawful "nas" "alice" "nas" body nas waiting refl refl
      refl

abbrev payload : WakePayload
payload = record {
  machine_id = "nas";
  attempt_id = "first";
  ensure_online = false;
  poll_timeout_s = 10;
  strategy_override = none;
  actor_type = "user";
  actor_id = "alice";
}

abbrev job : String → ℕ → Job
job id at = record {
  id = id;
  machine_id = "nas";
  attempt_id = "first";
  job_type = "wake";
  status = queued;
  payload = request payload;
  claimed_at = none;
  created_at = at;
}

abbrev busy : World
busy = record waiting {
  db = with_jobs (job "late" 2 ∷ job "early" 1 ∷ []) waiting_db;
  saved = with_jobs (job "late" 2 ∷ job "early" 1 ∷ []) waiting_db;
}

abbrev after_claim : World → World
after_claim w = (claim_next quiet_host w).1

claim_early : claim_next quiet_host busy ≡ (ok (some ("early", request payload)), after_claim busy)
unfolding claim_next select min_by
claim_early = refl

claim_late :
    claim_next quiet_host (after_claim busy)
    ≡ (ok (some ("late", request payload)), after_claim (after_claim busy))
unfolding claim_next select min_by update_where
claim_late = refl

claim_next_oldest_example :
    ((j : Job) × In j busy.saved.jobs
      × (j.id ≡ "early")
      × (j.payload ≡ request payload)
      × (is_queued j ≡ true)
      × ((k : Job) → In k busy.saved.jobs → is_queued k ≡ true → j.created_at ≤ k.created_at))
    × ((k : Job) → In k (after_claim busy).saved.jobs → is_queued k ≡ true → k.id ≢ "early")
claim_next_oldest_example =
    claim_next_oldest quiet_host busy (after_claim busy) "early" (request payload) claim_early

abbrev late_id : String
late_id = "late"

claimed_apart : late_id ≢ "early"
claimed_apart =
    claim_next_apart quiet_host busy (after_claim busy) (after_claim (after_claim busy)) "early"
      "late" (request payload) (request payload) claim_early claim_late

process_job-attempts_run :
    ((process_job quiet_host 0 (request payload) waiting).0 ≡ ok over)
    × ((process_job quiet_host 0 (request payload) waiting).1.db
        ≡ with_attempts
            (first
              ∷ settled (ok tt) 3 (pending_row quiet_host (job_args payload) nas "nas" waiting)
              ∷ [])
            waiting_db)
    × (find
          (λ b. b.id == "first")
          (process_job quiet_host 0 (request payload) waiting).1.db.attempts
        ≡ some first)
unfolding find any wake_by wake_udp packet_or_raise sent_or_raise build_magic_packet clean
    is_separator upper from_hex select is_blank hex_digit job_args
process_job-attempts_run =
    process_job-attempts quiet_host 0 quiet_host-IsLawful payload nas "nas" udp_broadcast waiting
      (transmitted (job_args payload) waiting) (ok tt) first refl refl refl refl refl refl refl refl

process_job_refused_example :
    process_job quiet_host 0 (request payload) no_machine ≡ (ok over, no_machine)
unfolding find
process_job_refused_example =
    process_job_refused quiet_host 0 payload no_machine refl (inr ("nas", refl, refl))

two_steps : Lives pending 2 waking
unfolding can_transition_to
two_steps = step {t = sent} refl (step {t = waking} refl here)

Lives-bounded_example : 2 + left waking ≤ left pending
Lives-bounded_example = Lives-bounded {s = pending} {t = waking} {n = 2} two_steps

is_terminal_iff_run :
    (is_terminal failed ≡ true) ↔ ((t : AttemptStatus) → can_transition_to failed t ≡ false)
is_terminal_iff_run = is_terminal_iff failed

abbrev following : WakePayload
following = record payload { ensure_online = true }

run_job-IsOver_example :
    (enough : ℕ) × ((fuel : ℕ)
      → enough ≤ fuel
      → ((run_job quiet_host fuel "early" (request following) (after_claim busy)).0 ≡ ok over)
        × IsOver "early"
            (run_job quiet_host fuel "early" (request following) (after_claim busy)).1.saved.jobs)
run_job-IsOver_example =
    run_job-IsOver quiet_host "early" "early" (request following) (after_claim busy) refl

abbrev later : World
later = record waiting { calls = 1 }

-- The attempt that the worker makes for the job.
abbrev own : Attempt
own = settled (ok tt) 0 (pending_row quiet_host (job_args following) nas "nas" later)

first_older :
    (a : Attempt) → In a (first ∷ []) → is_active_for "nas" a ≡ true → a.started_at < own.started_at
unfolding with_status
first_older a (inl same) active = subst (λ x. x.started_at < own.started_at) same (omega arith)
first_older a (inr m) active = absurd m.1

process_job-Ends_example :
    ((process_job quiet_host 4 (request following) later).0 ≡ ok over)
    × (r : Result (Option AttemptStatus)) × Ends quiet_host quiet_host-IsLawful own nas own.id
        (updated own.id waking none none (with_attempts (first ∷ own ∷ []) waiting_db))
        r
        (process_job quiet_host 4 (request following) later).1
unfolding find any wake_by wake_udp packet_or_raise sent_or_raise build_magic_packet clean
    is_separator upper from_hex select is_blank hex_digit job_args with_status wake new_attempt
    get_by_id
process_job-Ends_example =
    process_job-Ends quiet_host quiet_host-IsLawful 3 following nas "nas" udp_broadcast later
      (transmitted (job_args following) later) refl refl refl refl refl refl refl refl refl
      first_older (omega arith)
