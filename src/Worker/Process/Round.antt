-- ===== src/Worker/Process/Round.antt =====
-- From POST /machines/{machine_id}/wake to the end of the worker's round: app/api/wake.py,
-- worker/job_queue.py and worker/main.py together.
use wol_monkey.Common.{
  ℕ, suc, ◌+◌, String, ◌≡◌, refl, ap, ◌∙◌, true, false, Option, none, some, List, [], ◌∷◌, ◌++◌,
  ◌==◌, any, find, select, select-append, update_where, update_where_last, eq_refl, min_by,
}
use wol_monkey.Domain.Machine.{WakeStrategy, etherwake, udp_broadcast, value}
use wol_monkey.Domain.Records.{Machine, Attempt, Job, Payload, done}
use wol_monkey.Host.{Host, IsLawful}
use wol_monkey.World.{World, Db}
use wol_monkey.Exec.{ok}
use wol_monkey.Persistence.Attempts.Laws.{with_attempts}
use wol_monkey.Services.Wake.{WakeArgs, strategy_name, wake}
use wol_monkey.Services.Wake.Laws.{settled, transmit, at_send, pending_row, wake_lem}
use wol_monkey.Worker.Queue.{is_queued, start, mark_done}
use wol_monkey.Worker.Queue.Laws.{with_jobs, next_job, claimed, claim_next-some}
use wol_monkey.Worker.Process.{
  over, process_job, job_args, open_session, close_job, finish_job, run_job, run_claimed, end_round,
  work_once,
}
use wol_monkey.Worker.Process.Laws.{process_job-wake}
use wol_monkey.Api.Wake.{WakeRequest, value_or, queued_payload, queue_wake}
use wol_monkey.Api.Wake.Laws.{queued_attempt, wake_job, queue_wake_lem}

abbrev finished : String → Db → Db
finished key db =
    with_jobs (update_where (λ j. j.id == key) (λ j. record j { status = done }) db.jobs) db

module _ (h : Host) where
  -- The world once the worker has claimed the job.
  abbrev after_claim : World → Job → World
  after_claim v j = record v {
    db = with_jobs (claimed j.id (h.clock v.calls + v.slept) v.db.jobs) v.db;
    saved = with_jobs (claimed j.id (h.clock v.calls + v.slept) v.saved.jobs) v.saved;
    calls = suc v.calls;
  }

  -- The world in which the worker's session handles the job.
  abbrev pub at_work : World → Job → World
  at_work v j = record (after_claim v j) { db = (after_claim v j).saved }

  -- The job's arguments, as the worker hands them to the wake service.
  abbrev pub queued_args : String → WakeRequest → String → World → WakeArgs
  queued_args machine_id body user_id w =
      job_args (queued_payload h machine_id body user_id (h.uuid w.calls))

module _ (h : Host) (fuel : ℕ) where
  run_done :
      (job_id key : String) (payload : Payload) (v x : World)
      → process_job h fuel payload (record v { db = v.saved }) ≡ (ok over, x)
      → h.canonical job_id ≡ some key
      → run_job h fuel job_id payload v
        ≡ (ok over, record x { db = finished key x.db; saved = finished key x.db })
  unfolding run_job open_session finish_job close_job mark_done
  run_done job_id key payload v x e c = rw e (rw c refl)

  named_strategy :
      (machine_id user_id attempt_id : String) (body : WakeRequest) (m : Machine)
      → strategy_name (job_args (queued_payload h machine_id body user_id attempt_id)) m
        ≡ value_or body.strategy m.wake_strategy
  unfolding job_args queued_payload
  named_strategy machine_id user_id attempt_id body m = by body.strategy refl
    where
      by :
          (o : Option WakeStrategy)
          → body.strategy ≡ o
          → strategy_name (job_args (queued_payload h machine_id body user_id attempt_id)) m
            ≡ value_or body.strategy m.wake_strategy
      by none e = rw e refl
      by (some etherwake) e = rw e refl
      by (some udp_broadcast) e = rw e refl

  round_done :
      (v x : World) (j : Job)
      → next_job v.saved.jobs ≡ some j
      → h.canonical j.id ≡ some j.id
      → process_job h fuel j.payload (at_work h v j) ≡ (ok over, x)
      → ((work_once h fuel v).0 ≡ ok over) × ((work_once h fuel v).1.saved ≡ finished j.id x.db)
  unfolding work_once run_claimed end_round
  round_done v x j n c e =
      rw (claim_next-some h v j n)
        (rw (run_done j.id j.id j.payload (after_claim h v j) x e c) (refl, refl))

  only_job :
      (jobs : List Job) (j : Job)
      → select is_queued jobs ≡ []
      → is_queued j ≡ true
      → next_job (jobs ++ j ∷ []) ≡ some j
  unfolding min_by select
  only_job jobs j none_there waiting =
      rw (select-append is_queued jobs (j ∷ [])) (rw none_there (rw waiting refl))

  finished_last :
      (jobs : List Job) (j : Job) (at : ℕ) (attempts : List Attempt) (db : Db)
      → any (λ r. r.id == j.id) jobs ≡ false
      → finished j.id (with_attempts attempts (with_jobs (claimed j.id at (jobs ++ j ∷ [])) db))
        ≡ with_attempts attempts (with_jobs (jobs ++ record (start at j) { status = done } ∷ []) db)
  finished_last jobs j at attempts db fresh =
      let p = λ (r : Job). r.id == j.id in
      let begun : claimed j.id at (jobs ++ j ∷ []) ≡ jobs ++ start at j ∷ [] =
        update_where_last p (start at) jobs j fresh (eq_refl j.id) in
      let ended : update_where p (λ r. record r { status = done }) (jobs ++ start at j ∷ [])
          ≡ jobs ++ record (start at j) { status = done } ∷ [] =
        update_where_last p (λ r. record r { status = done }) jobs (start at j) fresh
          (eq_refl j.id) in
      ap (λ l. finished j.id (with_attempts attempts (with_jobs l db))) begun
      ∙ ap (λ l. with_attempts attempts (with_jobs l db)) ended

  -- On a lawful host, where no job is queued and the new ids are those of no attempt and no job, let a
  -- user ask for an enabled machine to be woken by a known strategy, without following it, and let a
  -- worker that sees the tables which this request has committed make one round. The round returns.
  -- The committed tables are then those before the request with one job more, which is done, and two
  -- attempts more: the one that the request made, still pending, and one that the worker made, which
  -- ends as the sending did.
  pub queue_wake-work_once :
      IsLawful h
      → (machine_id user_id key : String) (body : WakeRequest) (m : Machine) (s : WakeStrategy)
        (w v : World)
      → h.canonical machine_id ≡ some key
      → find (λ x. x.id == key) w.db.machines ≡ some m
      → m.enabled ≡ true
      → value_or body.strategy m.wake_strategy ≡ value s
      → body.ensure_online ≡ false
      → any (λ j. j.attempt_id == h.uuid w.calls) w.db.jobs ≡ false
      → any (λ j. j.id == h.uuid (suc (suc w.calls))) w.db.jobs ≡ false
      → select is_queued w.db.jobs ≡ []
      → v.saved ≡ (queue_wake h machine_id body user_id w).1.saved
      → any (λ a. a.id == h.uuid (suc v.calls)) v.saved.attempts ≡ false
      → let args : WakeArgs = queued_args h machine_id body user_id w in
        let a : Attempt = queued_attempt h machine_id body user_id m key w in
        let j : Job = wake_job h machine_id body user_id key w in
        let (r, sent) = transmit h m s (at_send h args m key (at_work h v j)) in
        let b : Attempt =
          settled r (h.clock sent.calls + sent.slept) (pending_row h args m key (at_work h v j)) in
        let done_job : Job = record (start (h.clock v.calls + v.slept) j) { status = done } in
        ((work_once h fuel v).0 ≡ ok over)
        × ((work_once h fuel v).1.saved
            ≡ with_attempts
                ((w.db.attempts ++ a ∷ []) ++ b ∷ [])
                (with_jobs (w.db.jobs ++ done_job ∷ []) w.db))
  unfolding job_args queued_payload
  queue_wake-work_once lawful machine_id user_id key body m s w v c f on named off free new idle
        sees fresh =
      let args : WakeArgs = queued_args h machine_id body user_id w in
      let a : Attempt = queued_attempt h machine_id body user_id m key w in
      let j : Job = wake_job h machine_id body user_id key w in
      let at : ℕ = h.clock v.calls + v.slept in
      let (r, sent) = transmit h m s (at_send h args m key (at_work h v j)) in
      let b : Attempt =
        settled r (h.clock sent.calls + sent.slept) (pending_row h args m key (at_work h v j)) in
      let (answer, tables) = queue_wake_lem h lawful machine_id user_id key body m w c f free in
      let here = sees ∙ tables in
      let next = ap (λ d. next_job d.jobs) here ∙ only_job w.db.jobs j idle refl in
      let found = ap (λ d. find (λ x. x.id == key) d.machines) here ∙ f in
      let (outcome, rows) =
        wake_lem h lawful args m key s (at_work h v j) sent r c found on
          (named_strategy machine_id user_id (h.uuid w.calls) body m ∙ named) fresh refl in
      let handled =
        process_job-wake h fuel (queued_payload h machine_id body user_id (h.uuid w.calls))
          (at_work h v j) (wake h args (at_work h v j)).1 (wake h args (at_work h v j)).0 off
          refl in
      let (returned, saved) =
        round_done v (wake h args (at_work h v j)).1 j next
          (lawful.canonical-uuid (suc (suc w.calls))) handled in
      (
        returned,
        saved
            ∙ ap (finished j.id) rows
            ∙ ap
                (λ d.
                  finished j.id
                    (with_attempts (d.attempts ++ b ∷ []) (with_jobs (claimed j.id at d.jobs) d)))
                here
            ∙ finished_last w.db.jobs j at ((w.db.attempts ++ a ∷ []) ++ b ∷ []) w.db new,
      )
