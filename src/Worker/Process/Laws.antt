-- ===== src/Worker/Process/Laws.antt =====
-- What the worker does with a job, in terms of the wake service.
use wol_monkey.Common.{
  ℕ, ◌+◌, String, ◌≡◌, refl, true, false, none, some, [], ◌∷◌, ◌++◌, ◌==◌, any, find, find_append,
  ◌⊎◌,
}
use wol_monkey.Domain.Machine.{WakeStrategy, value}
use wol_monkey.Domain.Records.{Machine, Attempt, WakePayload, request}
use wol_monkey.Host.{Host, IsLawful}
use wol_monkey.World.{World}
use wol_monkey.Exec.{Result, ok, err}
use wol_monkey.Persistence.Attempts.Laws.{with_attempts}
use wol_monkey.Services.Wake.{strategy_name, wake}
use wol_monkey.Services.Wake.Laws.{
  settled, transmit, at_send, pending_row, wake_lem, is_ready, wake_refused,
}
use wol_monkey.Worker.Process.{over, process_job, job_args, ensure, read_payload}

module _ (h : Host) (fuel : ℕ) where
  -- A job that does not follow its machine: the world is as the wake service leaves it, and no
  -- exception of the service comes out.
  pub process_job-wake :
      (p : WakePayload) (w w' : World) (r : Result String)
      → p.ensure_online ≡ false
      → wake h (job_args p) w ≡ (r, w')
      → process_job h fuel (request p) w ≡ (ok over, w')
  unfolding process_job ensure read_payload job_args
  process_job-wake p w w' (ok id) e t = rw t (rw e refl)
  process_job-wake p w w' (err x) e t = rw t refl

  -- On a lawful host, a job whose machine is there and enabled, with a known strategy, a new id
  -- that no attempt has, and without "ensure online": whatever the strategy answers, the worker
  -- adds an attempt of its own, settled as the wake service settles it, and leaves the attempt `a`
  -- that the job names as it was.
  pub process_job-attempts :
      IsLawful h
      → (p : WakePayload) (m : Machine) (key : String) (s : WakeStrategy) (w w' : World)
        (r : Result (Unit {0})) (a : Attempt)
      → h.canonical p.machine_id ≡ some key
      → find (λ x. x.id == key) w.db.machines ≡ some m
      → m.enabled ≡ true
      → strategy_name (job_args p) m ≡ value s
      → any (λ b. b.id == h.uuid w.calls) w.db.attempts ≡ false
      → transmit h m s (at_send h (job_args p) m key w) ≡ (r, w')
      → p.ensure_online ≡ false
      → find (λ b. b.id == p.attempt_id) w.db.attempts ≡ some a
      → ((process_job h fuel (request p) w).0 ≡ ok over)
        × ((process_job h fuel (request p) w).1.db
            ≡ with_attempts
                (w.db.attempts
                  ++ settled r (h.clock w'.calls + w'.slept) (pending_row h (job_args p) m key w)
                    ∷ [])
                w.db)
        × (find (λ b. b.id == p.attempt_id) (process_job h fuel (request p) w).1.db.attempts
            ≡ some a)
  unfolding job_args
  process_job-attempts lawful p m key s w w' r a c f e n fresh t off named =
      let done =
        process_job-wake p w (wake h (job_args p) w).1 (wake h (job_args p) w).0 off refl in
      let (answer, tables) = wake_lem h lawful (job_args p) m key s w w' r c f e n fresh t in
      rw done (refl, tables, rw tables (find_append _ w.db.attempts _ a named))

  -- A job without "ensure online" whose machine is gone, disabled or misnamed: the worker returns
  -- without an exception, and nothing at all has changed.
  pub process_job_refused :
      (p : WakePayload) (w : World)
      → p.ensure_online ≡ false
      → (h.canonical p.machine_id ≡ none)
        ⊎ ((key : String) × (h.canonical p.machine_id ≡ some key)
            × (is_ready h (find (λ x. x.id == key) w.db.machines) ≡ false))
      → process_job h fuel (request p) w ≡ (ok over, w)
  unfolding job_args
  process_job_refused p w off refused =
      process_job-wake p w w _ off (wake_refused h (job_args p) w refused).1
