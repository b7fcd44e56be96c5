-- ===== src/Api/Wake/Laws.antt =====
-- What POST /machines/{machine_id}/wake leaves behind.
use wol_monkey.Common.{
  suc, String, ◌≡◌, refl, true, false, some, [], ◌∷◌, ◌++◌, ◌==◌, any, any_last, find, any_of_find,
  eq_refl,
}
use wol_monkey.Domain.Attempt.{pending}
use wol_monkey.Domain.Records.{Machine, Attempt, Job, request}
use wol_monkey.Host.{Host, IsLawful}
use wol_monkey.World.{World}
use wol_monkey.Exec.{ok}
use wol_monkey.Persistence.Machines.Laws.{get_by_id_known}
use wol_monkey.Persistence.Attempts.{NewAttempt}
use wol_monkey.Persistence.Attempts.Laws.{new_row, with_attempts, create_lem}
use wol_monkey.Worker.Queue.Laws.{with_jobs, queued_job, enqueue_lem}
use wol_monkey.Api.Wake.{WakeRequest, value_or, queued_payload, queue_wake}

-- The arguments of the new attempt.
abbrev pub wanted : String → WakeRequest → String → Machine → NewAttempt
wanted machine_id body user_id m = record {
  machine_id = machine_id;
  actor_type = "user";
  actor_id = user_id;
  strategy = value_or body.strategy m.wake_strategy;
  ensure_online = body.ensure_online;
  poll_timeout_s = body.poll_timeout_s;
}

module _ (h : Host) where
  -- The pending attempt that the endpoint adds.
  abbrev pub queued_attempt : String → WakeRequest → String → Machine → String → World → Attempt
  queued_attempt machine_id body user_id m key w =
      new_row h (wanted machine_id body user_id m) key w

  -- The world once the attempt has been committed.
  abbrev pub after_commit : Attempt → World → World
  after_commit a w = record w {
    db = with_attempts (w.db.attempts ++ a ∷ []) w.db;
    saved = with_attempts (w.db.attempts ++ a ∷ []) w.db;
    calls = suc (suc w.calls);
  }

  abbrev pub wake_job : String → WakeRequest → String → String → World → Job
  wake_job machine_id body user_id key w =
      queued_job h key (h.uuid w.calls) "wake"
        (request (queued_payload h machine_id body user_id (h.uuid w.calls)))
        (record w { calls = suc (suc w.calls) })

  -- On a lawful host, for a machine that is there, and a new id that no job has: the endpoint
  -- commits one pending attempt and one queued job that names it, and answers with the attempt's
  -- id. Nothing else of the tables changes.
  pub queue_wake_lem :
      IsLawful h
      → (machine_id user_id key : String) (body : WakeRequest) (m : Machine) (w : World)
      → h.canonical machine_id ≡ some key
      → find (λ x. x.id == key) w.db.machines ≡ some m
      → any (λ j. j.attempt_id == h.uuid w.calls) w.db.jobs ≡ false
      → (queue_wake h machine_id body user_id w).0
          ≡ ok (record { attempt_id = h.uuid w.calls; status = pending })
        × ((queue_wake h machine_id body user_id w).1.saved
            ≡ with_jobs (w.db.jobs ++ wake_job machine_id body user_id key w ∷ []) (
                with_attempts
                  (w.db.attempts ++ queued_attempt machine_id body user_id m key w ∷ [])
                  w.db))
  unfolding queue_wake
  queue_wake_lem lawful machine_id user_id key body m w c f free =
      let a : Attempt = queued_attempt machine_id body user_id m key w in
      let found = get_by_id_known h machine_id key w c in
      let known = any_of_find _ w.db.machines m f in
      let listed : any (λ b. b.id == h.uuid w.calls) (w.db.attempts ++ a ∷ []) ≡ true =
        any_last (λ b. b.id == h.uuid w.calls) w.db.attempts a (eq_refl (h.uuid w.calls)) in
      let stored =
        enqueue_lem h machine_id (h.uuid w.calls) key (h.uuid w.calls) "wake"
          (request (queued_payload h machine_id body user_id (h.uuid w.calls))) (after_commit a w) c
          (lawful.canonical-uuid w.calls) known listed free in
      rw found (
        rw f (
          rw (create_lem h (wanted machine_id body user_id m) key w c known)
            (rw stored (refl, refl))))
