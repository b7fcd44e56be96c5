-- ===== src/Worker/Process/Jobs.antt =====
-- What a job does to the table of jobs while it runs: nothing. Rules for the services that it calls.
use wol_monkey.Common.{
  leb, arith, ℕ, ◌≡◌, ap, ◌∙◌, zero, suc, none, some, String, Bool, true, false, Option, List, ◌==◌,
  find,
}
use wol_monkey.Domain.Attempt.{AttemptStatus}
use wol_monkey.Domain.Machine.{WakeStrategy}
use wol_monkey.Domain.Records.{Machine, Attempt, Job, WakePayload, Payload}
use wol_monkey.Host.{Host}
use wol_monkey.World.{World, Db}
use wol_monkey.Exec.{Exec, Kind, pure, query, modify, guard, call, now, sleep}
use wol_monkey.Exec.Keeps.{Keeps, Keeps-bind, keeps_rules}
use wol_monkey.Infra.Strategy.{wake_by, get_strategy}
use wol_monkey.Infra.Strategy.Laws.{wake_by_tables}
use wol_monkey.Infra.StateProbe.{gather, retry, probe}
use wol_monkey.Persistence.Machines
use wol_monkey.Persistence.Attempts
use wol_monkey.Services.Wake
use wol_monkey.Services.Wake.{WakeArgs, wake}
use wol_monkey.Services.EnsureOnline
use wol_monkey.Worker.Process.{
  run_if_named, ensure, after_wake, process_job, Sending, sent_ok, gave_up,
}

-- The jobs of the session and the committed ones are these.
abbrev pub HasJobs : List Job → List Job → World → Type 0
HasJobs js ks w = (w.db.jobs ≡ js) × (w.saved.jobs ≡ ks)

module _ (h : Host) (js ks : List Job) where
  abbrev Kept : {A : Type 0} → Exec A → Type 0
  Kept m = Keeps (HasJobs js ks) m

  kept_query : {A : Type 0} (f : Db → A) → Kept (query f)
  kept_query f = record { at = λ w p. p }

  kept_modify : (f : Db → Db) → ((db : Db) → (f db).jobs ≡ db.jobs) → Kept (modify f)
  kept_modify f same = record { at = λ w p. (same w.db ∙ p.0, p.1) }

  kept_guard : (b : Bool) (k : Kind) (s : String) → Kept (guard b k s)
  kept_guard true k s = record { at = λ w p. p }
  kept_guard false k s = record { at = λ w p. p }

  kept_call : Kept call
  kept_call = record { at = λ w p. p }

  kept_now : Kept (now h)
  kept_now = record { at = λ w p. p }

  kept_sleep : (d : ℕ) → Kept (sleep h d)
  kept_sleep d = record { at = λ w p. p }

  ruleset job_rules =
      (keeps_rules, kept_query, kept_modify, kept_guard, kept_call, kept_now, kept_sleep)

  machine : (id : String) → Kept (Machines.get_by_id h id)
  unfolding Machines.get_by_id
  machine id = go (h.canonical id)
    where
      go :
          (o : Option String)
          → Kept {A = Option Machine} (elim o [
            | none ↦ pure none
            | some key ↦ query (λ db. find (λ m. m.id == key) db.machines)
          ])
      go none = record { at = λ w p. p }
      go (some key) = record { at = λ w p. p }

  attempt : (id : String) → Kept (Attempts.get_by_id h id)
  unfolding Attempts.get_by_id
  attempt id = go (h.canonical id)
    where
      go :
          (o : Option String)
          → Kept {A = Option Attempt} (elim o [
            | none ↦ pure none
            | some key ↦ query (λ db. find (λ m. m.id == key) db.attempts)
          ])
      go none = record { at = λ w p. p }
      go (some key) = record { at = λ w p. p }

  active : (id : String) → Kept (Attempts.get_active_for_machine h id)
  unfolding Attempts.get_active_for_machine
  active id = search job_rules

  status :
      (id : String) (s : AttemptStatus) (e : Option String) (f : Option ℕ)
      → Kept (Attempts.update_status h id s e f)
  unfolding Attempts.update_status
  status id s e f = search job_rules

  new_attempt : (args : Attempts.NewAttempt) → Kept (Attempts.create h args)
  unfolding Attempts.create
  new_attempt args = search job_rules depth 9

  found : (id : String) (o : Option Machine) → Kept (Wake.found_or_raise h id o)
  unfolding Wake.found_or_raise
  found id none = search job_rules
  found id (some m) = search job_rules

  strategy : (name : String) → Kept (get_strategy h name)
  unfolding get_strategy
  strategy name = record { at = λ w p. ground arith }

  packet : (s : WakeStrategy) (mac : String) (i b : Option String) → Kept (wake_by h s mac i b)
  packet s mac i b = record {
    at = λ w p.
        let (db, saved, slept) = wake_by_tables h s mac i b w in
        (ap (λ d. d.jobs) db ∙ p.0, ap (λ d. d.jobs) saved ∙ p.1);
  }

  attempt_wake : (a : Attempt) (m : Machine) (name : String) → Kept (Wake.attempt_wake h a m name)
  unfolding Wake.attempt_wake Wake.send Wake.record_failure
  attempt_wake a m name = search (job_rules, strategy, packet, status) depth 9

  woken : (args : WakeArgs) → Kept (wake h args)
  unfolding wake
  woken args = search (job_rules, machine, found, new_attempt, attempt_wake) depth 9

  probed : (id host : String) (port : ℕ) (ip : Option String) → Kept (probe h id host port ip)
  unfolding probe retry gather
  probed id host port ip = record { at = λ w p. ground arith }

  finished :
      (id : String) (s : AttemptStatus) (e : Option String) → Kept (EnsureOnline.finish h id s e)
  unfolding EnsureOnline.finish
  finished id s e = search (job_rules, status)

  probed_after :
      (id : String) (again : Exec (Option AttemptStatus)) (b : Bool)
      → Kept again
      → Kept (EnsureOnline.after_probe h id again b)
  unfolding EnsureOnline.after_probe
  probed_after id again true k = finished id _ _
  probed_after id again false k =
      Keeps-bind _ (sleep h EnsureOnline.poll_interval) (λ u. again) (kept_sleep _) (λ u. k)

  round_kept :
      (id : String) (a : Attempt) (m : Machine) (again : Exec (Option AttemptStatus)) (b : Bool)
      → Kept again
      → Kept (EnsureOnline.round h id a m again b)
  unfolding EnsureOnline.round EnsureOnline.probe_once
  round_kept id a m again true k = finished id _ _
  round_kept id a m again false k =
      Keeps-bind _ (EnsureOnline.probe_once h m) _ (probed _ _ _ _) (λ r. probed_after id again _ k)

  polled :
      (fuel : ℕ) (id : String) (a : Attempt) (m : Machine) → Kept (EnsureOnline.poll h fuel id a m)
  unfolding EnsureOnline.poll
  polled zero id a m = search job_rules
  polled (suc fuel) id a m =
      Keeps-bind _ (now h) _ kept_now
        (λ at. round_kept id a m _ (leb (EnsureOnline.deadline a) at) (polled fuel id a m))

  on_machine :
      (fuel : ℕ) (id : String) (a : Attempt) (o : Option Machine)
      → Kept (EnsureOnline.on_machine h fuel id a o)
  unfolding EnsureOnline.on_machine
  on_machine fuel id a none = finished id _ _
  on_machine fuel id a (some m) = search (job_rules, status, polled)

  on_attempt :
      (fuel : ℕ) (id : String) (o : Option Attempt) → Kept (EnsureOnline.on_attempt h fuel id o)
  unfolding EnsureOnline.on_attempt
  on_attempt fuel id none = search job_rules
  on_attempt fuel id (some a) = search (job_rules, machine, on_machine)

  followed : (fuel : ℕ) (id : String) → Kept (EnsureOnline.run h fuel id)
  unfolding EnsureOnline.run
  followed fuel id = search (job_rules, attempt, on_attempt)

  named : (fuel : ℕ) (b : Bool) (id : String) → Kept (run_if_named h fuel b id)
  unfolding run_if_named
  named fuel true id = search job_rules
  named fuel false id = search (job_rules, followed)

  ensured : (fuel : ℕ) (b : Bool) (p : WakePayload) → Kept (ensure h fuel b p)
  unfolding ensure
  ensured fuel false p = search job_rules
  ensured fuel true p = search (job_rules, active, named)

  after_sending : (fuel : ℕ) (p : WakePayload) (s : Sending) → Kept (after_wake h fuel p s)
  unfolding after_wake
  after_sending fuel p gave_up = search job_rules
  after_sending fuel p sent_ok = ensured fuel _ p

  -- Running a job leaves the jobs alone, in the session and in the committed tables.
  pub process_job_keeps : (fuel : ℕ) (payload : Payload) → Kept (process_job h fuel payload)
  unfolding process_job
  process_job_keeps fuel payload = search (job_rules, woken, after_sending) depth 8
