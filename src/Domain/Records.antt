-- ===== src/Domain/Records.antt =====
-- app/domain/ports.py and app/persistence/models.py: the rows of the tables. A row and the record
-- that a repository copies it into have the same fields, so one type stands for both. A datetime is
-- a number of microseconds; an id is the canonical text of a UUID.
use wol_monkey.Common.{ℕ, String, Bool, Option, List}
use wol_monkey.Domain.Attempt.{AttemptStatus}

-- The values that the program stores as JSON.
pub data Value : Type 0 where
  null : Value
  flag : Bool → Value
  number : ℕ → Value
  text : String → Value

abbrev pub Dict : Type 0 → Type 0
Dict V = List (String × V)

pub record User : Type 0 where
  pub id : String
  pub username : String
  pub password_hash : String
  pub role : String
  pub created_at : ℕ
  pub last_login_at : Option ℕ

pub record Machine : Type 0 where
  pub id : String
  pub name : String
  pub hostname : Option String
  pub ip_address : String
  pub mac_address : String
  pub ssh_port : ℕ
  pub wake_interface : Option String
  pub wake_strategy : String
  pub broadcast_address : Option String
  pub enabled : Bool
  pub created_at : ℕ
  pub updated_at : ℕ

pub record Attempt : Type 0 where
  pub id : String
  pub machine_id : String
  pub actor_type : String
  pub actor_id : String
  pub strategy : String
  pub status : AttemptStatus
  pub ensure_online : Bool
  pub poll_timeout_s : ℕ
  pub error : Option String
  pub started_at : ℕ
  pub finished_at : Option ℕ

pub record Session : Type 0 where
  pub id : String
  pub user_id : String
  pub csrf_secret : String
  pub ip : Option String
  pub user_agent : Option String
  pub expires_at : ℕ
  pub revoked : Bool
  pub created_at : ℕ

pub record ApiToken : Type 0 where
  pub id : String
  pub user_id : String
  pub machine_id : Option String
  pub name : String
  pub token_hash : String
  pub prefix : String
  pub scopes : Dict Value
  pub last_used_at : Option ℕ
  pub revoked_at : Option ℕ
  pub created_at : ℕ

pub record SetupState : Type 0 where
  pub completed : Bool
  pub current_step : String
  pub completed_steps : Dict Bool
  pub updated_at : ℕ

pub data JobStatus : Type 0 where
  queued running done error : JobStatus

-- The keys that `wake_machine` puts into a job's payload.
pub record WakePayload : Type 0 where
  pub machine_id : String
  pub attempt_id : String
  pub ensure_online : Bool
  pub poll_timeout_s : ℕ
  pub strategy_override : Option String
  pub actor_type : String
  pub actor_id : String

-- `mark_error` overwrites the payload.
pub data Payload : Type 0 where
  request : WakePayload → Payload
  failure : String → Payload

pub record Job : Type 0 where
  pub id : String
  pub machine_id : String
  pub attempt_id : String
  pub job_type : String
  pub status : JobStatus
  pub payload : Payload
  pub claimed_at : Option ℕ
  pub created_at : ℕ
