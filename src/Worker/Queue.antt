-- ===== src/Worker/Queue.antt =====
-- JobQueue of worker/job_queue.py. Each method opens a session of its own: it sees what is
-- committed, and commits what it does. A session that is open elsewhere sees the jobs at once.
pub mod Laws
pub mod Workers
use wol_monkey.Common.{
  ℕ, String, Bool, true, false, not, Option, none, some, List, [], ◌∷◌, ◌++◌, ◌==◌, any, select,
  update_where, min_by, if◌then◌else◌,
}
use wol_monkey.Domain.Records.{Job, JobStatus, queued, running, done, error, Payload, failure}
use wol_monkey.Host.{Host}
use wol_monkey.World.{World, Db}
use wol_monkey.Exec.{Exec, Result, pure, guard, call, now, as_uuid, ◌>>=◌, ◌>>◌, integrity_error}

abbrev pub on_jobs : (List Job → List Job) → Exec (Unit {0})
on_jobs f w = (
  Result.ok tt,
  record w {
    db = record w.db { jobs = f w.db.jobs };
    saved = record w.saved { jobs = f w.saved.jobs };
  },
)

abbrev pub committed : {A : Type 0} → (Db → A) → Exec A
committed f w = (Result.ok (f w.saved), w)

abbrev pub is_queued : Job → Bool
is_queued j = elim j.status [ queued ↦ true | running ↦ false | done ↦ false | error ↦ false ]

abbrev pub start : ℕ → Job → Job
start at j = record j { status = running; claimed_at = some at }

module _ (h : Host) where
  unfoldable pub claim : Option Job → Exec (Option (String × Payload))
  claim none = pure none
  claim (some j) = do
    at ← now h
    on_jobs (update_where (λ r. r.id == j.id) (start at))
    pure (some (j.id, j.payload))

  -- The oldest queued job, or one of the oldest. No other worker holds a lock on a row.
  unfoldable pub claim_next : Exec (Option (String × Payload))
  unfolding claim
  claim_next = do
    oldest ← committed (λ db. min_by (λ j. j.created_at) (select is_queued db.jobs))
    claim oldest

  unfoldable pub mark_done : String → Exec (Unit {0})
  mark_done job_id = do
    key ← as_uuid h job_id
    on_jobs (update_where (λ j. j.id == key) (λ j. record j { status = done }))

  unfoldable pub mark_error : String → String → Exec (Unit {0})
  mark_error job_id message = do
    key ← as_uuid h job_id
    on_jobs (
        update_where (λ j. j.id == key)
          (λ j. record j { status = error; payload = failure message }))

  -- The foreign keys and the unique attempt are checked by the flush.
  unfoldable pub enqueue : String → String → String → Payload → Exec String
  enqueue machine_id attempt_id job_type payload = do
    n ← call
    at ← now h
    machine ← as_uuid h machine_id
    attempt ← as_uuid h attempt_id
    known_machine ← committed (λ db. any (λ m. m.id == machine) db.machines)
    guard known_machine integrity_error "wake_jobs.machine_id"
    known_attempt ← committed (λ db. any (λ a. a.id == attempt) db.attempts)
    guard known_attempt integrity_error "wake_jobs.attempt_id"
    taken ← committed (λ db. any (λ j. j.attempt_id == attempt) db.jobs)
    guard (not taken) integrity_error "wake_jobs.attempt_id is unique"
    let job : Job = record {
      id = h.uuid n;
      machine_id = machine;
      attempt_id = attempt;
      job_type = job_type;
      status = queued;
      payload = payload;
      claimed_at = none;
      created_at = at;
    }
    on_jobs (λ jobs. jobs ++ job ∷ [])
    pure job.id
