-- ===== src/Worker/Process/Shutdown.antt =====
-- How the loop of worker/main.py ends after SIGTERM or SIGINT, and in which state it leaves the jobs.
use native.Mathlib.Nat.{le_refl}
use mathlib.Core.Path.{subst}
use mathlib.Core.Bool.{false≢true, cond}
use wol_monkey.Common.{
  ℕ, zero, suc, ◌+◌, ◌≤◌, String, ◌≡◌, ◌≢◌, refl, sym, ap, ◌∙◌, inl, inr, Bool, true, false, Option,
  none, some, List, [], ◌∷◌, ◌++◌, ◌==◌, update_where, In, In-update_where, Option-cases, arith,
  eq_iff,
}
use wol_monkey.Domain.Records.{Job, queued, running, done, error, Payload, failure}
use wol_monkey.Host.{Host}
use wol_monkey.World.{World}
use wol_monkey.Exec.{Exec, Result, ok, err, pure, catch, rollback, ◌>>=◌, ◌>>◌}
use wol_monkey.Worker.Queue.{mark_done, mark_error, start}
use wol_monkey.Worker.Queue.Laws.{
  with_jobs, next_job, claimed, claim_next-none, claim_next-some, next_job_oldest,
}
use wol_monkey.Worker.Process.{
  Handling, over, out_of_fuel, process_job, open_session, close_job, finish_job, run_job,
  run_claimed, end_round, work_once, LoopEnd, next_round, run_worker, stopped,
}
use wol_monkey.Worker.Process.Fuel.{IsHandled, round_end, work_once-Settles}
use wol_monkey.Worker.Process.Jobs.{HasJobs, process_job_keeps}

abbrev is_running : Job → Bool
is_running j = elim j.status [ queued ↦ false | running ↦ true | done ↦ false | error ↦ false ]

-- The ids are UUIDs, and no job is running.
abbrev pub IsIdle : Host → List Job → Type 0
IsIdle h jobs = (k : Job) → In k jobs → (h.canonical k.id ≡ some k.id) × (k.status ≢ running)

module _ {A : Type 0} where
  -- A row of the updated table that fails the test was there before.
  In-kept :
      (p : A → Bool) (f : A → A) (xs : List A) (y : A)
      → ((x : A) → p (f x) ≡ p x)
      → p y ≡ false
      → In y (update_where p f xs)
      → In y xs
  unfolding update_where
  In-kept p f [] y k e m = m
  In-kept p f (x ∷ xs) y k e (inr m) = inr (In-kept p f xs y k e m)
  In-kept p f (x ∷ xs) y k e (inl same) = head (p x) refl same
    where
      head : (b : Bool) → p x ≡ b → cond b (f x) x ≡ y → In y (x ∷ xs)
      head true passes same = absurd (false≢true (sym e ∙ (ap p (sym same) ∙ (k x ∙ passes))))
      head false fails same = inl same

module _ (h : Host) where
  -- The job as the worker's handling leaves it: done, or failed with a message.
  abbrev ended : Option String → Job → Job
  ended none j = record j { status = done }
  ended (some message) j = record j { status = error; payload = failure message }

  ended_jobs :
      (job_id key : String) (r : Result Handling) (w v : World) (jobs : List Job)
      → h.canonical job_id ≡ some key
      → HasJobs jobs jobs v
      → let out =
          catch
            (do x ← (λ w'. (r, v)); close_job h job_id x)
            (λ e. do rollback; mark_error h job_id e.detail; pure over)
            w in
        IsHandled out.0
        → (message : Option String) × (out.0 ≡ ok over)
          × (out.1.saved.jobs ≡ update_where (λ j. j.id == key) (ended message) jobs)
  unfolding mark_done mark_error close_job
  ended_jobs job_id key (ok over) w v jobs c same i =
      (none, rw c refl, rw c (ap (update_where (λ j. j.id == key) (ended none)) same.0))
  ended_jobs job_id key (ok out_of_fuel) w v jobs c same i = absurd i
  ended_jobs job_id key (err e) w v jobs c same i = (
    some e.detail,
    rw c refl,
    rw c (ap (update_where (λ j. j.id == key) (ended (some e.detail))) same.1),
  )

  run_job_lem :
      (fuel : ℕ) (job_id key : String) (payload : Payload) (w : World)
      → h.canonical job_id ≡ some key
      → IsHandled (run_job h fuel job_id payload w).0
      → (message : Option String) × ((run_job h fuel job_id payload w).0 ≡ ok over)
        × ((run_job h fuel job_id payload w).1.saved.jobs
            ≡ update_where (λ j. j.id == key) (ended message) w.saved.jobs)
  unfolding run_job open_session finish_job
  run_job_lem fuel job_id key payload w c i =
      let v : World = record w { db = w.saved } in
      let (r, v') = process_job h fuel payload v in
      ended_jobs job_id key r v v' w.saved.jobs c
        ((process_job_keeps h w.saved.jobs w.saved.jobs fuel payload).at v (refl, refl)) i

  -- The jobs once the one with this id has been claimed and handled.
  abbrev handled : String → ℕ → Option String → List Job → List Job
  handled id at message jobs = update_where (λ j. j.id == id) (ended message) (claimed id at jobs)

  ended_runs : (message : Option String) (j : Job) → (ended message j).status ≢ running
  ended_runs none j e = cc
  ended_runs (some message) j e = cc

  ended_id : (message : Option String) (j : Job) → (ended message j).id ≡ j.id
  ended_id none j = refl
  ended_id (some message) j = refl

  handled-IsIdle :
      (j : Job) (at : ℕ) (message : Option String) (jobs : List Job)
      → In j jobs
      → IsIdle h jobs
      → IsIdle h (handled j.id at message jobs)
  handled-IsIdle j at message jobs there idle k m =
      elim (In-update_where (λ x. x.id == j.id) (ended message) (claimed j.id at jobs) k m) [
        | inl (x, passes, image) ↦
            let named : x.id ≡ j.id = ground (arith, eq_iff x.id j.id) in
            let same : k.id ≡ j.id = ap (λ y. y.id) (sym image) ∙ ended_id message x ∙ named in
            (rw same (idle j there).0, subst (λ y. y.status ≢ running) image (ended_runs message x))
        | inr other ↦ idle k (
            In-kept (λ x. x.id == j.id) (start at) jobs k (λ x. refl) other
              (In-kept (λ x. x.id == j.id) (ended message) (claimed j.id at jobs) k
                (λ x. ap (λ i. i == j.id) (ended_id message x)) other m))
      ]

  job_IsHandled : (x : Result Handling × World) → IsHandled (round_end h x).0 → IsHandled x.0
  unfolding end_round
  job_IsHandled (ok over, v) i = tt
  job_IsHandled (ok out_of_fuel, v) i = i
  job_IsHandled (err e, v) i = tt

  -- A round that comes to its end.
  round_lem :
      (fuel : ℕ) (w : World)
      → IsIdle h w.saved.jobs
      → IsHandled (work_once h fuel w).0
      → ((work_once h fuel w).0 ≡ ok over) × IsIdle h (work_once h fuel w).1.saved.jobs
  unfolding work_once run_claimed end_round
  round_lem fuel w idle i = elim (Option-cases (next_job w.saved.jobs)) [
    | inl n ↦ (rw (claim_next-none h w n) refl, rw (claim_next-none h w n) idle)
    | inr (j, n) ↦
        let at : ℕ = h.clock w.calls + w.slept in
        let v : World = record w {
          db = with_jobs (claimed j.id at w.db.jobs) w.db;
          saved = with_jobs (claimed j.id at w.saved.jobs) w.saved;
          calls = suc w.calls;
        } in
        let (there, waiting, oldest) = next_job_oldest w.saved.jobs j n in
        let same : work_once h fuel w ≡ round_end h (run_job h fuel j.id j.payload v) =
          rw (claim_next-some h w j n) refl in
        let handled_job =
          job_IsHandled (run_job h fuel j.id j.payload v) (subst (λ x. IsHandled x.0) same i) in
        let (message, returned, jobs) =
          run_job_lem fuel j.id j.id j.payload v (idle j there).0 handled_job in
        (
          rw (claim_next-some h w j n, returned) refl,
          rw (claim_next-some h w j n, returned)
              (rw jobs (handled-IsIdle j at message w.saved.jobs there idle)),
        )
  ]

-- What the loop does after a round that comes to its end.
after_over :
    (m : Exec Handling) (again : Exec LoopEnd) (w : World)
    → (m w).0 ≡ ok over
    → (m >>= next_round again) w ≡ again (m w).1
unfolding next_round
after_over m again w e = rw e refl

-- No signal in so many rounds.
abbrev pub quiet : ℕ → List Bool
quiet zero = []
quiet (suc n) = false ∷ quiet n

module _ (h : Host) where
  -- The world after so many rounds.
  abbrev pub rounds : ℕ → ℕ → World → World
  rounds fuel zero w = w
  rounds fuel (suc n) w = rounds fuel n (work_once h fuel w).1

  abbrev pub Stops : ℕ → ℕ → List Bool → World → Type 0
  Stops fuel n later w =
      (run_worker h fuel false (quiet n ++ true ∷ later) w ≡ (ok stopped, rounds fuel (suc n) w))
      × IsIdle h (run_worker h fuel false (quiet n ++ true ∷ later) w).1.saved.jobs

  -- Let the ids of the jobs be UUIDs and no job be running, and let the first signal arrive in a round
  -- after `n` others. With enough fuel, whatever the host and the jobs, the loop makes these rounds and
  -- that one, each of which comes to its end, and stops at the head of the next, whatever arrives
  -- later; and again no job is left running.
  pub run_worker-Stops :
      (n : ℕ) (later : List Bool) (w : World)
      → IsIdle h w.saved.jobs
      → (enough : ℕ) × ((fuel : ℕ) → enough ≤ fuel → Stops fuel n later w)
  unfolding run_worker
  run_worker-Stops zero later w idle =
      let s = work_once-Settles h w in
      (
        s.enough,
        λ fuel l.
            let handled_round = subst (λ x. IsHandled x.0) (sym (s.stable fuel l)) s.ended in
            let (returned, after) = round_lem h fuel w idle handled_round in
            let ends = after_over (work_once h fuel) (pure stopped) w returned in
            (ends, rw ends after),
      )
  run_worker-Stops (suc n) later w idle =
      let s = work_once-Settles h w in
      let first = subst (λ x. IsHandled x.0) (sym (s.stable s.enough (le_refl s.enough))) s.ended in
      let settled_idle : IsIdle h s.out.1.saved.jobs =
        subst (λ x. IsIdle h x.1.saved.jobs) (s.stable s.enough (le_refl s.enough))
          (round_lem h s.enough w idle first).1 in
      let (enough, rest) = run_worker-Stops n later s.out.1 settled_idle in
      (
        s.enough + enough,
        λ fuel l.
            let same = s.stable fuel (omega arith) in
            let handled_round = subst (λ x. IsHandled x.0) (sym same) s.ended in
            let (returned, after) = round_lem h fuel w idle handled_round in
            let (stops, ending) =
              subst (λ x. Stops fuel n later x.1) (sym same) (rest fuel (omega arith)) in
            let ends =
              after_over (work_once h fuel) (run_worker h fuel false (quiet n ++ true ∷ later)) w
                returned in
            (ends ∙ stops, rw ends ending),
      )
