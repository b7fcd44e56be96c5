-- ===== src/Worker/Process/Ending.antt =====
-- How the worker ends a job that it has claimed.
use mathlib.Core.Bool.{false≢true}
use wol_monkey.Common.{
  ℕ, ◌≤◌, String, ◌≡◌, refl, sym, ap, ◌∙◌, ◌⊎◌, inl, inr, some, List, ◌==◌, eq_refl, update_where,
  In, In-update_where,
}
use wol_monkey.Domain.Records.{Job, done, error, Payload, failure}
use wol_monkey.Host.{Host}
use wol_monkey.World.{World}
use wol_monkey.Exec.{Result, ok, err, pure, catch, rollback, ◌>>=◌, ◌>>◌}
use wol_monkey.Worker.Queue.{mark_done, mark_error}
use wol_monkey.Worker.Process.{
  Handling, over, out_of_fuel, open_session, close_job, finish_job, run_job,
}
use wol_monkey.Worker.Process.Fuel.{IsHandled, process_job-Settles}

-- Every job of the table with this id is done or has failed.
abbrev pub IsOver : String → List Job → Type 0
IsOver key jobs = (k : Job) → In k jobs → k.id ≡ key → (k.status ≡ done) ⊎ (k.status ≡ error)

pub over_after :
    (key : String) (f : Job → Job) (jobs : List Job)
    → ((j : Job) → ((f j).status ≡ done) ⊎ ((f j).status ≡ error))
    → IsOver key (update_where (λ j. j.id == key) f jobs)
over_after key f jobs ends k m named = elim (In-update_where (λ j. j.id == key) f jobs k m) [
  | inl (j, passes, image) ↦ elim (ends j) [
    | inl e ↦ inl (ap (λ x. x.status) (sym image) ∙ e)
    | inr e ↦ inr (ap (λ x. x.status) (sym image) ∙ e)
  ]
  | inr other ↦ absurd (false≢true (sym other ∙ (ap (λ i. i == key) named ∙ eq_refl key)))
]

module _ (h : Host) where
  -- Closing the job after its handling has come to an end, whether it returned or raised.
  ended :
      (job_id key : String) (r : Result Handling) (w v : World)
      → h.canonical job_id ≡ some key
      → IsHandled r
      → let out =
          catch
            (do x ← (λ w'. (r, v)); close_job h job_id x)
            (λ e. do rollback; mark_error h job_id e.detail; pure over)
            w in
        (out.0 ≡ ok over) × IsOver key out.1.saved.jobs
  unfolding mark_done mark_error close_job
  ended job_id key (ok over) w v c i =
      rw c (refl, over_after key (λ j. record j { status = done }) v.db.jobs (λ j. inl refl))
  ended job_id key (ok out_of_fuel) w v c i = absurd i
  ended job_id key (err e) w v c i = rw c (
    refl,
    over_after key (λ j. record j { status = error; payload = failure e.detail }) v.saved.jobs
        (λ j. inr refl),
  )

  -- Whatever the host, the tables and the job, and whatever exception it raises: with enough fuel, for
  -- a valid id, the worker's handling of a claimed job comes to its end and returns; and in the
  -- committed table every job with this id is then done or has failed: none is left queued or running.
  pub run_job-IsOver :
      (job_id key : String) (payload : Payload) (w : World)
      → h.canonical job_id ≡ some key
      → (enough : ℕ) × ((fuel : ℕ)
          → enough ≤ fuel
          → ((run_job h fuel job_id payload w).0 ≡ ok over)
            × IsOver key (run_job h fuel job_id payload w).1.saved.jobs)
  unfolding run_job open_session finish_job
  run_job-IsOver job_id key payload w c =
      let v : World = record w { db = w.saved } in
      let s = process_job-Settles h payload v in
      (s.enough, λ fuel l. rw (s.stable fuel l) (ended job_id key s.out.0 v s.out.1 c s.ended))
