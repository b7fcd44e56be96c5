-- ===== src/Worker/Queue/Workers/Laws.antt =====
-- No job is given twice.
use mathlib.Core.Bool.{false≢true}
use wol_monkey.Common.{
  ℕ, String, ◌≡◌, refl, sym, ap, ◌∙◌, false, not, ◌&&◌, none, some, List, [], ◌∷◌, ◌++◌, ◌==◌, any,
  find, select, update_where, In-append, In-select, Option-cases, arith, inl, inr,
}
use wol_monkey.Domain.Records.{Job}
use wol_monkey.Worker.Queue.{is_queued}
use wol_monkey.Worker.Queue.Laws.{next_job, claimed}
use wol_monkey.Worker.Queue.Workers.Fair.{Once, IsFair, updated-In, lock-IsFair, commit-IsFair}
use wol_monkey.Worker.Queue.Workers.{
  Shared, is_worker, is_locked, was_given, lock_next, unlock, commit_claim, Step, lock, commit,
  drop, mark_done, mark_error, enqueue, Steps, stop, then,
}

-- A session that ends without a commit only gives locks back.
dropped-IsFair : (k : ℕ) (s : Shared) → IsFair s → IsFair (record s { locks = unlock k s.locks })
dropped-IsFair k s f = record {
  unclaimed = λ p m. f.unclaimed p (In-select (λ x. not (is_worker k x)) s.locks p m).0;
  apart = λ p q m n same.
      f.apart p q (In-select (λ x. not (is_worker k x)) s.locks p m).0
        (In-select (λ x. not (is_worker k x)) s.locks q n).0 same;
  started = f.started;
  once = f.once;
}

-- A change of rows to a status other than queued.
marked-IsFair :
    (id : String) (g : Job → Job) (s : Shared)
    → ((r : Job) → is_queued (g r) ≡ false)
    → IsFair s
    → IsFair (record s { jobs = update_where (λ j. j.id == id) g s.jobs })
marked-IsFair id g s over f = record {
  unclaimed = f.unclaimed;
  apart = f.apart;
  started = λ r m e. elim (updated-In (λ j. j.id == id) g s.jobs r m) [
    | inl (x, same) ↦ ap is_queued (sym same) ∙ over x
    | inr (kept, other) ↦ f.started r kept e
  ];
  once = f.once;
}

enqueued-IsFair :
    (j : Job) (s : Shared)
    → was_given j.id s.given ≡ false
    → IsFair s
    → IsFair (record s { jobs = s.jobs ++ j ∷ [] })
enqueued-IsFair j s fresh f = record {
  unclaimed = f.unclaimed;
  apart = f.apart;
  started = λ r m e. elim (In-append s.jobs j r m) [
    | inl same ↦ absurd (false≢true (sym fresh ∙ ap (λ x. was_given x.id s.given) (sym same) ∙ e))
    | inr there ↦ f.started r there e
  ];
  once = f.once;
}

Step-IsFair : (s t : Shared) → Step s t → IsFair s → IsFair t
Step-IsFair _ _ (lock k s free) f = lock-IsFair k s f
Step-IsFair _ _ (commit k at s) f = commit-IsFair k at s f
Step-IsFair _ _ (drop k s) f = dropped-IsFair k s f
Step-IsFair _ _ (mark_done id s) f = marked-IsFair id _ s (λ r. refl) f
Step-IsFair _ _ (mark_error id message s) f = marked-IsFair id _ s (λ r. refl) f
Step-IsFair _ _ (enqueue j s fresh) f = enqueued-IsFair j s fresh f

Steps-IsFair : (s t : Shared) → Steps s t → IsFair s → IsFair t
Steps-IsFair _ _ (stop s) f = f
Steps-IsFair _ _ (then {s} {t} {u} x xs) f = Steps-IsFair t u xs (Step-IsFair s t x f)

-- A table with no worker at it yet.
abbrev pub fresh_table : List Job → Shared
fresh_table jobs = record { jobs = jobs; locks = []; given = [] }

-- However the calls of several workers, the finishing of jobs and new jobs are interleaved, and
-- whichever sessions end without a commit: if no new job has the id of one that has been given, no
-- job is given twice.
pub Steps-Once : (jobs : List Job) (s : Shared) → Steps (fresh_table jobs) s → Once s.given
unfolding any
Steps-Once jobs s xs =
    (Steps-IsFair (fresh_table jobs) s xs (record {
      unclaimed = λ p m. absurd m.1;
      apart = λ p q m n same. absurd m.1;
      started = λ r m e. cc;
      once = tt;
    })).once

unlocked_rows :
    (jobs : List Job)
    → select (λ r. is_queued r && not (is_locked [] r)) jobs ≡ select is_queued jobs
unfolding any select
unlocked_rows [] = refl
unlocked_rows (j ∷ jobs) = ground (arith, unlocked_rows jobs)

own_lock : (k : ℕ) (j : Job) → find (is_worker k) ((k, j) ∷ []) ≡ some (k, j)
unfolding find
own_lock k j = ground arith

-- One worker alone leaves the table as `claim_next` of the model with one worker does.
commit_claim-lock_next :
    (k at : ℕ) (jobs : List Job)
    → (commit_claim k at (lock_next k (fresh_table jobs))).jobs
      ≡ (elim (next_job jobs) [ none ↦ jobs | some j ↦ claimed j.id at jobs ])
unfolding commit_claim lock_next find
commit_claim-lock_next k at jobs = rw (unlocked_rows jobs) (elim (Option-cases (next_job jobs)) [
  | inl e ↦ rw e refl
  | inr (j, e) ↦ rw e (rw (own_lock k j) refl)
])
