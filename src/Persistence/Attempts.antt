-- ===== src/Persistence/Attempts.antt =====
-- SqlWakeAttemptRepository
pub mod Laws
use wol_monkey.Common.{
  ℕ, zero, suc, String, Bool, true, false, Option, none, some, List, [], ◌∷◌, ◌++◌, ◌==◌, ◌&&◌, ltb,
  find, select, any, update_where, max_by, if◌then◌else◌,
}
use wol_monkey.Domain.Attempt.{AttemptStatus, pending, sent, waking, contains}
use wol_monkey.Domain.Records.{Attempt}
use wol_monkey.Host.{Host}
use wol_monkey.World.{Db}
use wol_monkey.Exec.{
  Exec, pure, query, modify, guard, call, now, as_uuid, ◌>>=◌, ◌>>◌, integrity_error,
}

-- The keyword arguments of `create`.
pub record NewAttempt : Type 0 where
  pub machine_id : String
  pub actor_type : String
  pub actor_id : String
  pub strategy : String
  pub ensure_online : Bool
  pub poll_timeout_s : ℕ

abbrev or_keep : {A : Type 0} → Option A → Option A → Option A
or_keep none old = old
or_keep (some v) old = some v

-- The columns that `update_status` writes: an argument that is None leaves its column alone.
unfoldable pub with_status : AttemptStatus → Option String → Option ℕ → Attempt → Attempt
with_status status error finished_at a = record a {
  status = status;
  error = or_keep error a.error;
  finished_at = or_keep finished_at a.finished_at;
}

insert_newer : Attempt → List Attempt → List Attempt
insert_newer a [] = a ∷ []
insert_newer a (b ∷ bs) =
    if ltb b.started_at a.started_at then a ∷ b ∷ bs else b ∷ insert_newer a bs

-- `order_by(started_at.desc())`
newest_first : List Attempt → List Attempt
newest_first [] = []
newest_first (a ∷ as_) = insert_newer a (newest_first as_)

take : ℕ → List Attempt → List Attempt
take zero xs = []
take (suc n) [] = []
take (suc n) (x ∷ xs) = x ∷ take n xs

unfoldable pub is_active_for : String → Attempt → Bool
is_active_for machine_id a =
    a.machine_id == machine_id && contains a.status (pending ∷ sent ∷ waking ∷ [])

module _ (h : Host) where
  -- The foreign key on the machine is checked by the flush.
  unfoldable pub create : NewAttempt → Exec Attempt
  create args = do
    n ← call
    at ← now h
    machine ← as_uuid h args.machine_id
    known ← query (λ db. any (λ m. m.id == machine) db.machines)
    guard known integrity_error "wake_attempts.machine_id"
    let attempt : Attempt = record {
      id = h.uuid n;
      machine_id = machine;
      actor_type = args.actor_type;
      actor_id = args.actor_id;
      strategy = args.strategy;
      status = pending;
      ensure_online = args.ensure_online;
      poll_timeout_s = args.poll_timeout_s;
      error = none;
      started_at = at;
      finished_at = none;
    }
    modify (λ db. record db { attempts = db.attempts ++ attempt ∷ [] })
    pure attempt

  unfoldable pub get_by_id : String → Exec (Option Attempt)
  get_by_id attempt_id = elim (h.canonical attempt_id) [
    | none ↦ pure none
    | some key ↦ query (λ db. find (λ a. a.id == key) db.attempts)
  ]

  unfoldable pub update_status : String → AttemptStatus → Option String → Option ℕ → Exec (Unit {0})
  update_status attempt_id status error finished_at = do
    key ← as_uuid h attempt_id
    modify (λ db. record db {
      attempts = update_where (λ a. a.id == key) (with_status status error finished_at) db.attempts;
    })

  unfoldable pub list_for_machine : String → ℕ → Exec (List Attempt)
  unfolding newest_first insert_newer take
  list_for_machine machine_id limit = do
    key ← as_uuid h machine_id
    query (λ db. take limit (newest_first (select (λ a. a.machine_id == key) db.attempts)))

  unfoldable pub get_active_for_machine : String → Exec (Option Attempt)
  get_active_for_machine machine_id = do
    key ← as_uuid h machine_id
    query (λ db. max_by (λ a. a.started_at) (select (is_active_for key) db.attempts))
