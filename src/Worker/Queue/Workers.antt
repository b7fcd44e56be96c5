-- ===== src/Worker/Queue/Workers.antt =====
-- Several workers that call `JobQueue.claim_next` of worker/job_queue.py at once. A call is two
-- steps: the SELECT … FOR UPDATE SKIP LOCKED, which locks a row that no other session has locked, and
-- the commit, which writes the row and gives the lock back. What PostgreSQL documents of row locks is
-- modelled as the list of locked rows.
pub mod Fair
pub mod Laws
use wol_monkey.Common.{
  ℕ, String, ◌≡◌, Bool, true, false, not, ◌&&◌, Option, none, some, List, [], ◌∷◌, ◌++◌, ◌==◌, leb,
  any, find, select, update_where, min_by,
}
use wol_monkey.Domain.Records.{Job, Payload, done, error, failure}
use wol_monkey.Worker.Queue.{is_queued, start}

pub record Shared : Type 0 where
  -- The committed table.
  pub jobs : List Job
  -- Which worker has locked which row, as it read it.
  pub locks : List (ℕ × Job)
  -- Which worker has been given which job, the latest first.
  pub given : List (ℕ × String)

abbrev pub is_worker : ℕ → ℕ × Job → Bool
is_worker k p = leb k p.0 && leb p.0 k

abbrev pub is_locked : List (ℕ × Job) → Job → Bool
is_locked locks j = any (λ p. p.1.id == j.id) locks

abbrev pub was_given : String → List (ℕ × String) → Bool
was_given id given = any (λ g. g.1 == id) given

abbrev pub lock_row : ℕ → Option Job → Shared → Shared
lock_row k none s = s
lock_row k (some j) s = record s { locks = (k, j) ∷ s.locks }

-- The oldest queued row that is not locked, or one of the oldest.
unfoldable pub lock_next : ℕ → Shared → Shared
lock_next k s =
    lock_row k
      (min_by (λ j. j.created_at) (select (λ j. is_queued j && not (is_locked s.locks j)) s.jobs)) s

-- The session of the worker ends: its locks are given back.
abbrev pub unlock : ℕ → List (ℕ × Job) → List (ℕ × Job)
unlock k locks = select (λ p. not (is_worker k p)) locks

abbrev pub commit_row : ℕ → ℕ → Option (ℕ × Job) → Shared → Shared
commit_row k at none s = s
commit_row k at (some p) s = record {
  jobs = update_where (λ r. r.id == p.1.id) (start at) s.jobs;
  locks = unlock k s.locks;
  given = (k, p.1.id) ∷ s.given;
}

unfoldable pub commit_claim : ℕ → ℕ → Shared → Shared
commit_claim k at s = commit_row k at (find (is_worker k) s.locks) s

-- One step of one of the sessions.
pub data Step : Shared → Shared → Type 0 where
  lock : (k : ℕ) (s : Shared) → any (is_worker k) s.locks ≡ false → Step s (lock_next k s)
  commit : (k at : ℕ) (s : Shared) → Step s (commit_claim k at s)
  -- A session that ends without a commit.
  drop : (k : ℕ) (s : Shared) → Step s (record s { locks = unlock k s.locks })
  mark_done :
      (id : String) (s : Shared)
      → Step s (record s {
        jobs = update_where (λ j. j.id == id) (λ j. record j { status = done }) s.jobs;
      })
  mark_error :
      (id message : String) (s : Shared)
      → Step s (record s {
        jobs =
            update_where
              (λ j. j.id == id)
              (λ j. record j { status = error; payload = failure message })
              s.jobs;
      })
  -- The generated id is one that no job has had.
  enqueue :
      (j : Job) (s : Shared)
      → was_given j.id s.given ≡ false
      → Step s (record s { jobs = s.jobs ++ j ∷ [] })

-- Any number of steps, in any order.
pub data Steps : Shared → Shared → Type 0 where
  stop : (s : Shared) → Steps s s
  then : {s t u : Shared} → Step s t → Steps t u → Steps s u
