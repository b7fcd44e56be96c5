-- ===== src/Worker/Process/Fuel.antt =====
-- Enough fuel: whatever the host and the tables, the polling of a job comes to its end, and so does the
-- round of the worker; more fuel changes nothing.
use wol_monkey.Common.{
  ℕ, zero, suc, ◌+◌, ◌*◌, ◌≤◌, String, ◌≡◌, refl, ap, inl, inr, Bool, true, false, Option, none,
  some, leb, ◌==◌, arith, Bool-cases, some_if_text,
}
use wol_monkey.Domain.Attempt.{AttemptStatus, waking, online, failed, timeout}
use wol_monkey.Domain.Machine.{probe_host}
use wol_monkey.Domain.Probe.{derived_state}
use wol_monkey.Domain.Records.{Machine, Attempt, WakePayload, Payload}
use wol_monkey.Host.{Host}
use wol_monkey.World.{World}
use wol_monkey.Exec.{
  Exec, Result, Error, ok, err, pure, continue, handle, catch, commit, rollback, ◌>>=◌, ◌>>◌,
}
use wol_monkey.Persistence.Machines
use wol_monkey.Persistence.Attempts
use wol_monkey.Infra.StateProbe.Laws.{probe-IsQuiet}
use wol_monkey.Services.Wake.{wake}
use wol_monkey.Services.EnsureOnline.{
  poll_interval, deadline, is_online, finish, timeout_message, probe_once, after_probe, round, poll,
  on_machine, on_attempt, run,
}
use wol_monkey.Worker.Queue.{claim_next, mark_error}
use wol_monkey.Worker.Process.{
  Handling, over, out_of_fuel, handling, Sending, sent_ok, gave_up, run_if_named, run_id, ensure,
  after_wake, process_job, job_args, read_payload, open_session, close_job, finish_job, run_job,
  run_claimed, end_round, work_once,
}

-- A computation on fuel that gives one outcome for all fuel from some amount on.
pub record Settles {A : Type 0} (P : Result A → Type 0) (g : ℕ → Result A × World) : Type 0 where
  pub enough : ℕ
  pub out : Result A × World
  pub stable : (fuel : ℕ) → enough ≤ fuel → g fuel ≡ out
  pub ended : P out.0

module _ {A : Type 0} where
  constant : (P : Result A → Type 0) (x : Result A × World) → P x.0 → Settles P (λ fuel. x)
  constant P x p = record { enough = 0; out = x; stable = λ fuel l. refl; ended = p }

  -- One unit of fuel and then as many as the rest needs.
  delayed :
      (P : Result A → Type 0) (g : ℕ → Result A × World) (n : ℕ) (x : Result A × World)
      → ((fuel : ℕ) → n ≤ fuel → g (suc fuel) ≡ x)
      → P x.0
      → Settles P g
  delayed P g n x same p = record { enough = suc n; out = x; stable = from; ended = p }
    where
      from : (fuel : ℕ) → suc n ≤ fuel → g fuel ≡ x
      from zero l = absurd (omega arith)
      from (suc fuel) l = same fuel (omega arith)

module _ {A B : Type 0} where
  -- What follows an action that takes no fuel.
  continued :
      (P : Result B → Type 0) (k : ℕ → A → Exec B) (r : Result A) (v : World)
      → ((e : Error) → P (err e))
      → ((a : A) → Settles P (λ fuel. k fuel a v))
      → Settles P (λ fuel. continue r (k fuel) v)
  continued P k (ok a) v fails s = s a
  continued P k (err e) v fails s = constant P (err e, v) (fails e)

  -- What takes no fuel itself, after something that does.
  followed :
      (P : Result A → Type 0) (Q : Result B → Type 0) (g : ℕ → Result A × World)
      (f : Result A × World → Result B × World)
      → ((r : Result A) (v : World) → P r → Q (f (r, v)).0)
      → Settles P g
      → Settles Q (λ fuel. f (g fuel))
  followed P Q g f keeps s = record {
    enough = s.enough;
    out = f s.out;
    stable = λ fuel l. ap f (s.stable fuel l);
    ended = keeps s.out.0 s.out.1 s.ended;
  }

-- The fuel has not run out: a status, or an exception.
abbrev IsEnded : Result (Option AttemptStatus) → Type 0
IsEnded (ok none) = ⊥
IsEnded (ok (some s)) = Unit
IsEnded (err e) = Unit

abbrev pub IsHandled : Result Handling → Type 0
IsHandled (ok over) = Unit
IsHandled (ok out_of_fuel) = ⊥
IsHandled (err e) = Unit

module _ (h : Host) where
  returned-IsEnded :
      (r : Result (Unit {0})) (s : AttemptStatus) (v : World)
      → IsEnded (continue r (λ u. pure (some s)) v).0
  returned-IsEnded (ok u) s v = tt
  returned-IsEnded (err e) s v = tt

  finish-IsEnded :
      (id : String) (s : AttemptStatus) (e : Option String) (w : World)
      → IsEnded (finish h id s e w).0
  unfolding finish
  finish-IsEnded id s e w = returned-IsEnded _ s _

  module _ (id : String) (a : Attempt) (m : Machine) where
    late_poll :
        (w : World)
        → deadline a ≤ h.clock w.calls + w.slept
        → Settles IsEnded (λ fuel. poll h fuel id a m w)
    unfolding poll round
    late_poll w due =
        let late : leb (deadline a) (h.clock w.calls + w.slept) ≡ true = ground arith in
        delayed IsEnded _ 0
          (finish h id timeout (some (timeout_message h a)) (record w { calls = suc w.calls }))
          (λ fuel l. rw late refl) (finish-IsEnded id timeout _ _)

    -- A round in which time is left: the probe, and then the end or the sleep and the next round.
    early_poll :
        (w : World)
        → leb (deadline a) (h.clock w.calls + w.slept) ≡ false
        → ((v : World)
            → v.slept ≡ w.slept + poll_interval
            → Settles IsEnded (λ fuel. poll h fuel id a m v))
        → Settles IsEnded (λ fuel. poll h fuel id a m w)
    unfolding poll round after_probe probe_once
    early_poll w early later =
        let w1 : World = record w { calls = suc w.calls } in
        let (r, w2, probed, quiet) =
          probe-IsQuiet h m.id (probe_host m) m.ssh_port (some_if_text m.hostname m.ip_address)
            w1 in
        let v : World = record w2 { slept = w2.slept + poll_interval } in
        elim (Bool-cases (is_online (derived_state r))) [
          | inl up ↦
              delayed IsEnded _ 0 (finish h id online none w2)
                (λ fuel l. rw early (rw probed (rw up refl))) (finish-IsEnded id online none w2)
          | inr down ↦
              let s = later v (ap (λ t. t + poll_interval) quiet.slept) in
              delayed IsEnded _ s.enough s.out
                (λ fuel l. rw early (rw probed (rw down (s.stable fuel l)))) s.ended
        ]

    poll-Settles :
        (n : ℕ) (w : World)
        → deadline a ≤ w.slept + n * poll_interval
        → Settles IsEnded (λ fuel. poll h fuel id a m w)
    poll-Settles zero w due = late_poll w (omega arith)
    poll-Settles (suc n) w due = elim (Bool-cases (leb (deadline a) (h.clock w.calls + w.slept))) [
      | inl late ↦ late_poll w (ground arith)
      | inr early ↦ early_poll w early (λ v slept. poll-Settles n v (omega arith))
    ]

  on_machine-Settles :
      (id : String) (a : Attempt) (o : Option Machine) (w : World)
      → Settles IsEnded (λ fuel. on_machine h fuel id a o w)
  unfolding on_machine
  on_machine-Settles id a none w =
      constant IsEnded (finish h id failed (some "Machine not found") w)
        (finish-IsEnded id failed _ w)
  on_machine-Settles id a (some m) w =
      let (r, v) = Attempts.update_status h id waking none none w in
      continued IsEnded (λ fuel u. poll h fuel id a m) r v (λ e. tt)
        (λ u. poll-Settles id a m (deadline a) v (omega arith))

  on_attempt-Settles :
      (id : String) (o : Option Attempt) (w : World)
      → Settles IsEnded (λ fuel. on_attempt h fuel id o w)
  unfolding on_attempt
  on_attempt-Settles id none w = constant IsEnded (ok (some failed), w) tt
  on_attempt-Settles id (some a) w =
      let (r, v) = Machines.get_by_id h a.machine_id w in
      continued IsEnded (λ fuel. on_machine h fuel id a) r v (λ e. tt)
        (λ o. on_machine-Settles id a o v)

  run-Settles : (id : String) (w : World) → Settles IsEnded (λ fuel. run h fuel id w)
  unfolding run
  run-Settles id w =
      let (r, v) = Attempts.get_by_id h id w in
      continued IsEnded (λ fuel. on_attempt h fuel id) r v (λ e. tt)
        (λ o. on_attempt-Settles id o v)

  read-IsHandled :
      (r : Result (Option AttemptStatus)) (v : World)
      → IsEnded r
      → IsHandled (continue r (λ s. pure (handling s)) v).0
  read-IsHandled (ok none) v e = e
  read-IsHandled (ok (some s)) v e = tt
  read-IsHandled (err x) v e = tt

  run_if_named-Settles :
      (b : Bool) (id : String) (w : World) → Settles IsHandled (λ fuel. run_if_named h fuel b id w)
  unfolding run_if_named
  run_if_named-Settles true id w = constant IsHandled (ok over, w) tt
  run_if_named-Settles false id w =
      followed IsEnded IsHandled (λ fuel. run h fuel id w)
        (λ x. continue x.0 (λ s. pure (handling s)) x.1) read-IsHandled (run-Settles id w)

  ensure-Settles :
      (b : Bool) (p : WakePayload) (w : World) → Settles IsHandled (λ fuel. ensure h fuel b p w)
  unfolding ensure
  ensure-Settles false p w = constant IsHandled (ok over, w) tt
  ensure-Settles true p w =
      let (r, v) = Attempts.get_active_for_machine h p.machine_id w in
      continued IsHandled
        (λ fuel active.
          run_if_named h fuel (run_id active p.attempt_id == "") (run_id active p.attempt_id))
        r v (λ e. tt) (λ active. run_if_named-Settles _ _ v)

  after_wake-Settles :
      (p : WakePayload) (s : Sending) (w : World)
      → Settles IsHandled (λ fuel. after_wake h fuel p s w)
  unfolding after_wake
  after_wake-Settles p gave_up w = constant IsHandled (ok over, w) tt
  after_wake-Settles p sent_ok w = ensure-Settles p.ensure_online p w

  pub process_job-Settles :
      (payload : Payload) (w : World) → Settles IsHandled (λ fuel. process_job h fuel payload w)
  unfolding process_job
  process_job-Settles payload w =
      let p : WakePayload = read_payload payload in
      let (r, v) = catch (do id ← wake h (job_args p); pure sent_ok) (λ e. pure gave_up) w in
      continued IsHandled (λ fuel. after_wake h fuel p) r v (λ e. tt)
        (λ s. after_wake-Settles p s v)

  module _ (job_id : String) where
    after_mark :
        (r : Result (Unit {0})) (k : Exec Handling) (v : World)
        → ((w : World) → IsHandled (k w).0)
        → IsHandled (continue r (λ u. k) v).0
    after_mark (ok u) k v e = e v
    after_mark (err x) k v e = tt

    close-IsHandled :
        (r : Result Handling) (v : World)
        → IsHandled r
        → IsHandled (continue r (close_job h job_id) v).0
    unfolding close_job
    close-IsHandled (ok over) v e = after_mark _ (do commit; pure over) _ (λ w. tt)
    close-IsHandled (ok out_of_fuel) v e = e
    close-IsHandled (err x) v e = tt

    on_error : Error → Exec Handling
    on_error e = do rollback; mark_error h job_id e.detail; pure over

    rolled_back-IsHandled :
        (r : Result Handling) (v : World) → IsHandled r → IsHandled (handle r on_error v).0
    unfolding on_error
    rolled_back-IsHandled (ok x) v e = e
    rolled_back-IsHandled (err x) v e = after_mark _ (pure over) _ (λ w. tt)

    run_job-Settles :
        (payload : Payload) (w : World)
        → Settles IsHandled (λ fuel. run_job h fuel job_id payload w)
    unfolding run_job open_session finish_job on_error
    run_job-Settles payload w =
        followed IsHandled IsHandled
          (λ fuel. finish_job h fuel job_id payload (record w { db = w.saved }))
          (λ x. handle x.0 on_error x.1) rolled_back-IsHandled
          (followed IsHandled IsHandled
            (λ fuel. process_job h fuel payload (record w { db = w.saved }))
            (λ x. continue x.0 (close_job h job_id) x.1) close-IsHandled
            (process_job-Settles payload (record w { db = w.saved })))

  run_claimed-Settles :
      (o : Option (String × Payload)) (w : World)
      → Settles IsHandled (λ fuel. run_claimed h fuel o w)
  unfolding run_claimed
  run_claimed-Settles none w = constant IsHandled (ok over, w) tt
  run_claimed-Settles (some (job_id, payload)) w = run_job-Settles job_id payload w

  -- What the loop does with the outcome of a round.
  abbrev pub round_end : Result Handling × World → Result Handling × World
  round_end x = let (r, v) = handle x.0 (λ e. pure over) x.1 in continue r (end_round h) v

  round_end-IsHandled :
      (r : Result Handling) (v : World) → IsHandled r → IsHandled (round_end (r, v)).0
  unfolding end_round
  round_end-IsHandled (ok over) v e = tt
  round_end-IsHandled (ok out_of_fuel) v e = e
  round_end-IsHandled (err x) v e = tt

  pub work_once-Settles : (w : World) → Settles IsHandled (λ fuel. work_once h fuel w)
  unfolding work_once
  work_once-Settles w =
      let (r, v) = claim_next h w in
      followed IsHandled IsHandled (λ fuel. continue r (run_claimed h fuel) v) round_end
        round_end-IsHandled
        (continued IsHandled (run_claimed h) r v (λ e. tt) (λ o. run_claimed-Settles o v))
