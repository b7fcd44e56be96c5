-- ===== src/Migrations/Initial.antt =====
-- migrations/versions/a079c458d58b_initial_schema.py. autoincrement is left out.
use wol_monkey.Common.{String, none, some, List, [], ◌∷◌}
use wol_monkey.Migrations.Schema.{
  uuid, varchar, plain_text, jsonb, timestamp, boolean, integer, big_integer, inet, macaddr, Column,
  one_of, within, equals, cascade, primary_key, unique, check, foreign_key, Table, column, optional,
  new_table,
}
use wol_monkey.Migrations.Database.{Operation, create_table, drop_table, create_index, drop_index}

-- A timestamp with server_default now().
abbrev pub stamped : String → Column
stamped name = record (column name timestamp) { server_default = some "now()" }

abbrev pub api_tokens : Table
api_tokens =
    new_table "api_tokens"
      (column "id" uuid
        ∷ column "name" (varchar 255)
        ∷ column "token_hash" (varchar 128)
        ∷ column "prefix" (varchar 16)
        ∷ column "scopes" jsonb
        ∷ optional "last_used_at" timestamp
        ∷ optional "revoked_at" timestamp
        ∷ column "created_at" timestamp
        ∷ [])
      (primary_key "id" ∷ unique (some "uq_api_tokens_hash") "token_hash" ∷ []) []

abbrev pub audit_events : Table
audit_events =
    new_table "audit_events"
      (column "id" big_integer
        ∷ column "actor_type" (varchar 20)
        ∷ column "actor_id" (varchar 255)
        ∷ column "action" (varchar 100)
        ∷ optional "target_type" (varchar 50)
        ∷ optional "target_id" (varchar 255)
        ∷ optional "ip" inet
        ∷ column "metadata" jsonb
        ∷ stamped "created_at"
        ∷ [])
      (primary_key "id" ∷ []) []

abbrev pub machines : Table
machines =
    new_table "machines"
      (column "id" uuid
        ∷ column "name" (varchar 255)
        ∷ optional "hostname" (varchar 255)
        ∷ column "ip_address" inet
        ∷ column "mac_address" macaddr
        ∷ column "ssh_port" integer
        ∷ optional "wake_interface" (varchar 50)
        ∷ column "wake_strategy" (varchar 20)
        ∷ optional "broadcast_address" inet
        ∷ column "enabled" boolean
        ∷ column "created_at" timestamp
        ∷ column "updated_at" timestamp
        ∷ [])
      (check "ck_machines_wake_strategy"
          (one_of "wake_strategy" ("etherwake" ∷ "udp_broadcast" ∷ []))
        ∷ check "ck_machines_ssh_port" (within "ssh_port" 1 65535)
        ∷ primary_key "id"
        ∷ unique (some "uq_machines_mac_address") "mac_address"
        ∷ [])
      []

abbrev pub settings : Table
settings =
    new_table "settings"
      (column "key" (varchar 100) ∷ column "value" jsonb ∷ column "updated_at" timestamp ∷ [])
      (primary_key "key" ∷ []) []

abbrev pub setup_state : Table
setup_state =
    new_table "setup_state"
      (column "id" integer
        ∷ column "completed" boolean
        ∷ column "current_step" (varchar 50)
        ∷ column "completed_steps" jsonb
        ∷ column "updated_at" timestamp
        ∷ [])
      (check "ck_setup_state_singleton" (equals "id" 1) ∷ primary_key "id" ∷ []) []

abbrev pub users : Table
users =
    new_table "users"
      (column "id" uuid
        ∷ column "username" (varchar 150)
        ∷ column "password_hash" plain_text
        ∷ column "role" (varchar 50)
        ∷ column "created_at" timestamp
        ∷ optional "last_login_at" timestamp
        ∷ [])
      (primary_key "id" ∷ unique (some "uq_users_username") "username" ∷ []) []

abbrev pub probe_results : Table
probe_results =
    new_table "probe_results"
      (column "id" uuid
        ∷ column "machine_id" uuid
        ∷ column "ping_ok" boolean
        ∷ column "tcp_ssh_ok" boolean
        ∷ column "derived_state" (varchar 20)
        ∷ stamped "observed_at"
        ∷ [])
      (foreign_key none "machine_id" "machines" "id" cascade ∷ primary_key "id" ∷ []) []

abbrev pub sessions : Table
sessions =
    new_table "sessions"
      (column "id" uuid
        ∷ column "user_id" uuid
        ∷ column "csrf_secret" (varchar 128)
        ∷ optional "ip" inet
        ∷ optional "user_agent" plain_text
        ∷ column "expires_at" timestamp
        ∷ column "revoked" boolean
        ∷ column "created_at" timestamp
        ∷ [])
      (foreign_key none "user_id" "users" "id" cascade ∷ primary_key "id" ∷ []) []

abbrev pub wake_attempts : Table
wake_attempts =
    new_table "wake_attempts"
      (column "id" uuid
        ∷ column "machine_id" uuid
        ∷ column "actor_type" (varchar 20)
        ∷ column "actor_id" (varchar 255)
        ∷ column "strategy" (varchar 20)
        ∷ column "status" (varchar 20)
        ∷ column "ensure_online" boolean
        ∷ column "poll_timeout_s" integer
        ∷ optional "error" plain_text
        ∷ column "started_at" timestamp
        ∷ optional "finished_at" timestamp
        ∷ [])
      (check "ck_wake_attempts_status"
          (one_of "status" ("pending" ∷ "sent" ∷ "waking" ∷ "online" ∷ "failed" ∷ "timeout" ∷ []))
        ∷ foreign_key none "machine_id" "machines" "id" cascade
        ∷ primary_key "id"
        ∷ [])
      []

abbrev pub wake_jobs : Table
wake_jobs =
    new_table "wake_jobs"
      (column "id" uuid
        ∷ column "machine_id" uuid
        ∷ column "attempt_id" uuid
        ∷ column "job_type" (varchar 20)
        ∷ column "status" (varchar 20)
        ∷ column "payload" jsonb
        ∷ optional "claimed_at" timestamp
        ∷ column "created_at" timestamp
        ∷ [])
      (check "ck_wake_jobs_type" (one_of "job_type" ("wake" ∷ "ensure_online" ∷ []))
        ∷ check "ck_wake_jobs_status"
            (one_of "status" ("queued" ∷ "running" ∷ "done" ∷ "error" ∷ []))
        ∷ foreign_key none "attempt_id" "wake_attempts" "id" cascade
        ∷ foreign_key none "machine_id" "machines" "id" cascade
        ∷ primary_key "id"
        ∷ unique none "attempt_id"
        ∷ [])
      []

abbrev pub upgrade : List Operation
upgrade =
    create_table api_tokens
    ∷ create_table audit_events
    ∷ create_index "ix_audit_events_created" "audit_events" ("created_at" ∷ [])
    ∷ create_table machines
    ∷ create_table settings
    ∷ create_table setup_state
    ∷ create_table users
    ∷ create_table probe_results
    ∷ create_index "ix_probe_results_machine_observed" "probe_results"
        ("machine_id" ∷ "observed_at" ∷ [])
    ∷ create_table sessions
    ∷ create_index "ix_sessions_user_expires" "sessions" ("user_id" ∷ "expires_at" ∷ [])
    ∷ create_table wake_attempts
    ∷ create_index "ix_wake_attempts_machine_started" "wake_attempts"
        ("machine_id" ∷ "started_at" ∷ [])
    ∷ create_table wake_jobs
    ∷ create_index "ix_wake_jobs_status_created" "wake_jobs" ("status" ∷ "created_at" ∷ [])
    ∷ []

abbrev pub downgrade : List Operation
downgrade =
    drop_index "ix_wake_jobs_status_created" "wake_jobs"
    ∷ drop_table "wake_jobs"
    ∷ drop_index "ix_wake_attempts_machine_started" "wake_attempts"
    ∷ drop_table "wake_attempts"
    ∷ drop_index "ix_sessions_user_expires" "sessions"
    ∷ drop_table "sessions"
    ∷ drop_index "ix_probe_results_machine_observed" "probe_results"
    ∷ drop_table "probe_results"
    ∷ drop_table "users"
    ∷ drop_table "setup_state"
    ∷ drop_table "settings"
    ∷ drop_table "machines"
    ∷ drop_index "ix_audit_events_created" "audit_events"
    ∷ drop_table "audit_events"
    ∷ drop_table "api_tokens"
    ∷ []
