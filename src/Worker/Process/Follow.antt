-- ===== src/Worker/Process/Follow.antt =====
-- A job with "ensure online": the worker wakes the machine and follows the attempt that it has made.
use mathlib.Core.Path.{subst}
use wol_monkey.Common.{
  ℕ, suc, ◌+◌, ◌*◌, ◌≤◌, ◌<◌, String, ◌≡◌, refl, sym, ap, ◌∙◌, true, false, Option, none, some,
  List, [], ◌∷◌, ◌++◌, ◌==◌, any, find, find_last, select, select-append, max_by_last, In,
  In-select, eq_refl,
}
use wol_monkey.Domain.Attempt.{AttemptStatus, waking}
use wol_monkey.Domain.Machine.{WakeStrategy, value}
use wol_monkey.Domain.Records.{Machine, Attempt, WakePayload, request}
use wol_monkey.Host.{Host, IsLawful}
use wol_monkey.World.{World}
use wol_monkey.Exec.{Result, ok}
use wol_monkey.Persistence.Attempts.{with_status, is_active_for, get_active_for_machine}
use wol_monkey.Persistence.Attempts.Laws.{with_attempts}
use wol_monkey.Services.Wake.{strategy_name, wake}
use wol_monkey.Services.Wake.Laws.{settled, transmit, at_send, pending_row, wake_lem}
use wol_monkey.Services.EnsureOnline.{poll_interval, deadline, run}
use wol_monkey.Services.EnsureOnline.Laws.{updated, Ends, run-Ends}
use wol_monkey.Worker.Process.{
  Handling, over, process_job, job_args, ensure, run_if_named, run_id, read_payload,
}

module _ (h : Host) where
  -- What is followed, once the wake has returned and the active attempt is found.
  follow_run :
      (fuel : ℕ) (p : WakePayload) (w v : World) (b : Attempt) (id : String) (s : AttemptStatus)
      → p.ensure_online ≡ true
      → wake h (job_args p) w ≡ (ok id, v)
      → get_active_for_machine h p.machine_id v ≡ (ok (some b), v)
      → (b.id == "") ≡ false
      → (run h fuel b.id v).0 ≡ ok (some s)
      → process_job h fuel (request p) w ≡ (ok over, (run h fuel b.id v).1)
  unfolding process_job ensure run_if_named run_id read_payload job_args run
  follow_run fuel p w v b id s on woken found named returned =
      rw woken (rw on (rw found (rw named (rw returned refl))))

  -- The newest active attempt is the one that stands last, if it started after the others.
  newest :
      (machine_id key : String) (rows : List Attempt) (b : Attempt) (v : World)
      → h.canonical machine_id ≡ some key
      → v.db.attempts ≡ rows ++ b ∷ []
      → is_active_for key b ≡ true
      → ((a : Attempt) → In a rows → is_active_for key a ≡ true → a.started_at < b.started_at)
      → get_active_for_machine h machine_id v ≡ (ok (some b), v)
  unfolding get_active_for_machine select
  newest machine_id key rows b v c last active older =
      rw (c, last, select-append (is_active_for key) rows (b ∷ []), active)
        (rw
          (max_by_last (λ a. a.started_at) (select (is_active_for key) rows) b
            (λ a m.
              let (there, busy) = In-select (is_active_for key) rows a m in older a there busy))
          refl)

-- On a lawful host, take a job with "ensure online" whose machine is there and enabled, with a known
-- strategy; a new id that no attempt has, and that is not empty; and let every active attempt of the
-- machine have started before the new one. Let the strategy succeed, and let there be more fuel than the
-- rounds up to the deadline. Then the worker's handling of the job returns. It follows the attempt
-- that it has made itself, whichever attempt the job names, and this one ends online, after a probe of
-- the machine was answered, or in a timeout after the deadline; every other attempt, the one that the
-- job names included, is as it was.
pub process_job-Ends :
    (h : Host) (lawful : IsLawful h) (fuel : ℕ) (p : WakePayload) (m : Machine) (key : String)
    (s : WakeStrategy) (w w' : World)
    → h.canonical p.machine_id ≡ some key
    → h.canonical key ≡ some key
    → find (λ x. x.id == key) w.db.machines ≡ some m
    → m.enabled ≡ true
    → strategy_name (job_args p) m ≡ value s
    → p.ensure_online ≡ true
    → any (λ a. a.id == h.uuid w.calls) w.db.attempts ≡ false
    → (h.uuid w.calls == "") ≡ false
    → transmit h m s (at_send h (job_args p) m key w) ≡ (ok tt, w')
    → let b : Attempt = settled (ok tt) 0 (pending_row h (job_args p) m key w) in
      let v : World = (wake h (job_args p) w).1 in
      ((a : Attempt)
        → In a w.db.attempts
        → is_active_for key a ≡ true
        → a.started_at < b.started_at)
      → deadline b ≤ h.clock v.calls + v.slept + fuel * poll_interval
      → let end : Result Handling × World = process_job h (suc fuel) (request p) w in
        (end.0 ≡ ok over)
        × (r : Result (Option AttemptStatus)) × Ends h lawful b m b.id
            (updated b.id waking none none (with_attempts (w.db.attempts ++ b ∷ []) w.db))
            r
            end.1
unfolding job_args with_status is_active_for
process_job-Ends h lawful fuel p m key s w w' c stable f enabled named on fresh filled t older
      enough =
    let b : Attempt = settled (ok tt) 0 (pending_row h (job_args p) m key w) in
    let v : World = (wake h (job_args p) w).1 in
    let (answer, tables) =
      wake_lem h lawful (job_args p) m key s w w' (ok tt) c f enabled named fresh t in
    let rows = ap (λ d. d.attempts) tables in
    let active : is_active_for key b ≡ true = rw (eq_refl key) refl in
    let found = newest h p.machine_id key w.db.attempts b v c rows active older in
    let follows =
      run-Ends h lawful b.id b.id (lawful.canonical-uuid w.calls) b m key fuel v
        (ap (λ as_. find (λ x. x.id == b.id) as_) rows
          ∙ find_last _ w.db.attempts b fresh (eq_refl b.id))
        stable (ap (λ d. find (λ x. x.id == key) d.machines) tables ∙ f) enough in
    let done =
      follow_run h (suc fuel) p w v b (h.uuid w.calls) follows.status on (λ i. (answer i, v)) found
        filled follows.returned in
    let ends : Ends h lawful b m b.id
        (updated b.id waking none none (with_attempts (w.db.attempts ++ b ∷ []) w.db))
        (run h (suc fuel) b.id v).0 (run h (suc fuel) b.id v).1 =
      subst
        (λ d.
          Ends h lawful b m b.id (updated b.id waking none none d) (run h (suc fuel) b.id v).0
            (run h (suc fuel) b.id v).1)
        tables follows in
    (
      ap (λ x. x.0) done,
      (run h (suc fuel) b.id v).0,
      subst
          (λ x.
            Ends h lawful b m b.id
              (updated b.id waking none none (with_attempts (w.db.attempts ++ b ∷ []) w.db))
              (run h (suc fuel) b.id v).0 x.1)
          (sym done) ends,
    )
