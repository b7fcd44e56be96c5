-- ===== src/World.antt =====
-- The state that the handlers and the worker act on: the tables as the current database session
-- sees them and as they are committed, the calls made to the outside, the time slept, the wake
-- packets sent and the login limiter's buckets (app/persistence/models.py, app/persistence/
-- database.py, app/api/auth.py).
use wol_monkey.Common.{ℕ, String, Option, none, List, []}
use wol_monkey.Domain.Records.{
  Value, Dict, User, Machine, Attempt, Session, ApiToken, SetupState, Job,
}

pub record Db : Type 0 where
  pub users : List User
  pub machines : List Machine
  pub attempts : List Attempt
  pub jobs : List Job
  pub sessions : List Session
  pub tokens : List ApiToken
  -- The single row with id 1, once it is there.
  pub setup : Option SetupState
  pub settings : Dict Value

-- What a strategy has handed to the network: the etherwake arguments, or a packet and its address.
pub data Sent : Type 0 where
  etherwake_args : List String → Sent
  datagram : List ℕ → String → ℕ → Sent

pub record World : Type 0 where
  pub db : Db
  pub saved : Db
  pub calls : ℕ
  pub slept : ℕ
  pub sent : List Sent
  pub buckets : Dict (List ℕ)

abbrev pub empty_db : Db
empty_db = record {
  users = [];
  machines = [];
  attempts = [];
  jobs = [];
  sessions = [];
  tokens = [];
  setup = none;
  settings = [];
}

-- A process that has just started on an empty database.
abbrev pub empty_world : World
empty_world = record {
  db = empty_db;
  saved = empty_db;
  calls = 0;
  slept = 0;
  sent = [];
  buckets = [];
}
