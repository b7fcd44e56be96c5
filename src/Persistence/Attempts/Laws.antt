-- ===== src/Persistence/Attempts/Laws.antt =====
-- What `create` and `update_status` do to the world.
use wol_monkey.Common.{
  ℕ, suc, ◌+◌, String, ◌≡◌, true, Option, none, some, List, [], ◌∷◌, ◌++◌, ◌==◌, any, find,
  update_where,
}
use wol_monkey.Domain.Attempt.{AttemptStatus, pending}
use wol_monkey.Domain.Records.{Attempt}
use wol_monkey.Host.{Host}
use wol_monkey.World.{World, Db}
use wol_monkey.Exec.{ok}
use wol_monkey.Persistence.Attempts.{NewAttempt, with_status, create, update_status, get_by_id}

abbrev pub with_attempts : List Attempt → Db → Db
with_attempts rows db = record db { attempts = rows }

module _ (h : Host) where
  -- The row that `create` adds, for a machine whose canonical id is `key`.
  abbrev pub new_row : NewAttempt → String → World → Attempt
  new_row args key w = record {
    id = h.uuid w.calls;
    machine_id = key;
    actor_type = args.actor_type;
    actor_id = args.actor_id;
    strategy = args.strategy;
    status = pending;
    ensure_online = args.ensure_online;
    poll_timeout_s = args.poll_timeout_s;
    error = none;
    started_at = h.clock (suc w.calls) + w.slept;
    finished_at = none;
  }

  pub create_lem :
      (args : NewAttempt) (key : String) (w : World)
      → h.canonical args.machine_id ≡ some key
      → any (λ m. m.id == key) w.db.machines ≡ true
      → create h args w ≡ (
        ok (new_row args key w),
        record w {
          db = with_attempts (w.db.attempts ++ new_row args key w ∷ []) w.db;
          calls = suc (suc w.calls);
        },
      )
  unfolding create
  create_lem args key w c k = rw c (rw k)

  pub update_status_lem :
      (id : String) (s : AttemptStatus) (e : Option String) (f : Option ℕ) (key : String)
      (w : World)
      → h.canonical id ≡ some key
      → update_status h id s e f w ≡ (
        ok tt,
        record w {
          db =
              with_attempts
                (update_where (λ a. a.id == key) (with_status s e f) w.db.attempts)
                w.db;
        },
      )
  unfolding update_status
  update_status_lem id s e f key w c = rw c

  pub get_by_id_known :
      (attempt_id key : String) (w : World)
      → h.canonical attempt_id ≡ some key
      → get_by_id h attempt_id w ≡ (ok (find (λ a. a.id == key) w.db.attempts), w)
  unfolding get_by_id
  get_by_id_known attempt_id key w c = rw (c, get_by_id)
