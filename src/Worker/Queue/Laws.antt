-- ===== src/Worker/Queue/Laws.antt =====
-- What claiming, finishing and enqueueing do to the table of jobs.
use mathlib.Core.Path.{subst}
use wol_monkey.Common.{
  ℕ, suc, ◌+◌, ◌≤◌, String, ◌≡◌, ◌≢◌, refl, sym, ap, ◌∙◌, Bool, true, false, Option, none, some,
  List, [], ◌∷◌, ◌++◌, ◌==◌, any, select, update_where, min_by, min_by-In, min_by_le, In, In-select,
  select-In, Option-cases, inl, inr, ne_of_false,
}
use mathlib.Core.Bool.{cond, false≢true}
use wol_monkey.Domain.Records.{Job, queued, Payload}
use wol_monkey.Host.{Host}
use wol_monkey.World.{World, Db}
use wol_monkey.Exec.{Result, ok, err}
use wol_monkey.Worker.Queue.{claim_next, enqueue, is_queued, start}

abbrev pub with_jobs : List Job → Db → Db
with_jobs jobs db = record db { jobs = jobs }

-- The job that the next claim takes.
abbrev pub next_job : List Job → Option Job
next_job jobs = min_by (λ j. j.created_at) (select is_queued jobs)

-- The tables after the claim of the job `j`.
abbrev pub claimed : String → ℕ → List Job → List Job
claimed id at jobs = update_where (λ r. r.id == id) (start at) jobs

module _ (h : Host) where
  pub claim_next-none : (w : World) → next_job w.saved.jobs ≡ none → claim_next h w ≡ (ok none, w)
  unfolding claim_next
  claim_next-none w e = rw e refl

  pub claim_next-some :
      (w : World) (j : Job)
      → next_job w.saved.jobs ≡ some j
      → claim_next h w ≡ (
        ok (some (j.id, j.payload)),
        record w {
          db = with_jobs (claimed j.id (h.clock w.calls + w.slept) w.db.jobs) w.db;
          saved = with_jobs (claimed j.id (h.clock w.calls + w.slept) w.saved.jobs) w.saved;
          calls = suc w.calls;
        },
      )
  unfolding claim_next
  claim_next-some w j e = rw e refl

-- The job that a claim takes was queued, and no queued job is older.
pub next_job_oldest :
    (jobs : List Job) (j : Job)
    → next_job jobs ≡ some j
    → In j jobs
      × (is_queued j ≡ true)
      × ((k : Job) → In k jobs → is_queued k ≡ true → j.created_at ≤ k.created_at)
next_job_oldest jobs j e =
    let (there, waiting) = In-select is_queued jobs j (min_by-In _ (select is_queued jobs) j e) in
    (
      there,
      waiting,
      λ k m q. min_by_le _ (select is_queued jobs) j k e (select-In is_queued jobs k m q),
    )

claimed-In :
    (id : String) (at : ℕ) (jobs : List Job) (k : Job)
    → In k (claimed id at jobs)
    → is_queued k ≡ true
    → k.id ≢ id
unfolding update_where
claimed-In id at [] k m q = absurd m.1
claimed-In id at (j ∷ jobs) k (inl same) q = not_started (j.id == id) refl same
  where
    not_started : (b : Bool) → (j.id == id) ≡ b → cond b (start at j) j ≡ k → k.id ≢ id
    not_started true e same = absurd (false≢true (ap is_queued same ∙ q))
    not_started false e same = ne_of_false k.id id (ap (λ r. r.id == id) (sym same) ∙ e)
claimed-In id at (j ∷ jobs) k (inr later) q = claimed-In id at jobs k later q

abbrev gave : {A : Type 0} → Result (Option A) → Bool
gave (ok none) = false
gave (ok (some a)) = true
gave (err e) = false

-- What is known after a claim that gave a job.
pub claim_next_gives :
    (h : Host) (w w' : World) (id : String) (p : Payload)
    → claim_next h w ≡ (ok (some (id, p)), w')
    → (j : Job) × (next_job w.saved.jobs ≡ some j)
      × (j.id ≡ id)
      × (j.payload ≡ p)
      × (w'.saved.jobs ≡ claimed j.id (h.clock w.calls + w.slept) w.saved.jobs)
claim_next_gives h w w' id p e = elim (Option-cases (next_job w.saved.jobs)) [
  | inl n ↦ absurd (false≢true (ap (λ x. gave x.0) (sym (claim_next-none h w n) ∙ e)))
  | inr (j, n) ↦
      let same = sym (claim_next-some h w j n) ∙ e in
      let given : Path (Result (Option (String × Payload))) (ok (some (j.id, j.payload)))
          (ok (some (id, p))) =
        ap (λ x. x.0) same in
      (j, n, cc, cc, sym (ap (λ x. x.1.saved.jobs) same))
]

-- The job that a claim gives was queued in the committed table, and no queued job there is older;
-- afterwards no committed row with its id is queued.
pub claim_next_oldest :
    (h : Host) (w w' : World) (id : String) (p : Payload)
    → claim_next h w ≡ (ok (some (id, p)), w')
    → ((j : Job) × In j w.saved.jobs
        × (j.id ≡ id)
        × (j.payload ≡ p)
        × (is_queued j ≡ true)
        × ((k : Job) → In k w.saved.jobs → is_queued k ≡ true → j.created_at ≤ k.created_at))
      × ((k : Job) → In k w'.saved.jobs → is_queued k ≡ true → k.id ≢ id)
claim_next_oldest h w w' id p first =
    let (j, taken, named, carried, left) = claim_next_gives h w w' id p first in
    let (there, waiting, oldest) = next_job_oldest w.saved.jobs j taken in
    (
      (j, there, named, carried, waiting, oldest),
      λ k m q.
          subst (λ i. k.id ≢ i) named
            (claimed-In j.id (h.clock w.calls + w.slept) w.saved.jobs k (subst (In k) left m) q),
    )

-- Two claims, one after the other, never give the same job.
pub claim_next_apart :
    (h : Host) (w w' w'' : World) (id id' : String) (p p' : Payload)
    → claim_next h w ≡ (ok (some (id, p)), w')
    → claim_next h w' ≡ (ok (some (id', p')), w'')
    → id' ≢ id
claim_next_apart h w w' w'' id id' p p' first second =
    let (k, taken, named, carried, left) = claim_next_gives h w' w'' id' p' second in
    let (there, waiting, oldest) = next_job_oldest w'.saved.jobs k taken in
    subst (λ i. i ≢ id) named ((claim_next_oldest h w w' id p first).1 k there waiting)

module _ (h : Host) where
  -- The row that `enqueue` adds.
  abbrev pub queued_job : String → String → String → Payload → World → Job
  queued_job machine attempt job_type payload w = record {
    id = h.uuid w.calls;
    machine_id = machine;
    attempt_id = attempt;
    job_type = job_type;
    status = queued;
    payload = payload;
    claimed_at = none;
    created_at = h.clock (suc w.calls) + w.slept;
  }

  pub enqueue_lem :
      (machine_id attempt_id machine attempt job_type : String) (payload : Payload) (w : World)
      → h.canonical machine_id ≡ some machine
      → h.canonical attempt_id ≡ some attempt
      → any (λ m. m.id == machine) w.saved.machines ≡ true
      → any (λ a. a.id == attempt) w.saved.attempts ≡ true
      → any (λ j. j.attempt_id == attempt) w.saved.jobs ≡ false
      → enqueue h machine_id attempt_id job_type payload w ≡ (
        ok (h.uuid w.calls),
        record w {
          db = with_jobs (w.db.jobs ++ queued_job machine attempt job_type payload w ∷ []) w.db;
          saved =
              with_jobs
                (w.saved.jobs ++ queued_job machine attempt job_type payload w ∷ [])
                w.saved;
          calls = suc (suc w.calls);
        },
      )
  unfolding enqueue
  enqueue_lem machine_id attempt_id machine attempt job_type payload w c d m a j =
      rw c (rw d (rw m (rw a (rw j refl))))
