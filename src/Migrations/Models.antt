-- ===== src/Migrations/Models.antt =====
-- The tables that app/persistence/models.py declares. A column is nullable where its annotation
-- allows None; the defaults that Python fills in are no part of the schema.
use wol_monkey.Common.{none, some, List, [], ◌∷◌}
use wol_monkey.Migrations.Schema.{
  uuid, varchar, plain_text, jsonb, timestamp, boolean, integer, big_integer, inet, macaddr, one_of,
  within, equals, cascade, set_null, primary_key, unique, check, foreign_key, Table, column,
  optional, new_table, index,
}
use wol_monkey.Migrations.Initial.{stamped}

abbrev pub user_model : Table
user_model =
    new_table "users"
      (column "id" uuid
        ∷ column "username" (varchar 150)
        ∷ column "password_hash" plain_text
        ∷ column "role" (varchar 50)
        ∷ column "created_at" timestamp
        ∷ optional "last_login_at" timestamp
        ∷ [])
      (primary_key "id" ∷ unique (some "uq_users_username") "username" ∷ []) []

abbrev pub machine_model : Table
machine_model =
    new_table "machines"
      (column "id" uuid
        ∷ column "name" (varchar 255)
        ∷ optional "hostname" (varchar 255)
        ∷ column "ip_address" inet
        ∷ column "mac_address" macaddr
        ∷ column "ssh_port" integer
        ∷ optional "wake_interface" (varchar 50)
        ∷ column "wake_strategy" (varchar 20)
        ∷ optional "broadcast_address" inet
        ∷ column "enabled" boolean
        ∷ column "created_at" timestamp
        ∷ column "updated_at" timestamp
        ∷ [])
      (primary_key "id"
        ∷ unique (some "uq_machines_mac_address") "mac_address"
        ∷ check "ck_machines_ssh_port" (within "ssh_port" 1 65535)
        ∷ check "ck_machines_wake_strategy"
            (one_of "wake_strategy" ("etherwake" ∷ "udp_broadcast" ∷ []))
        ∷ [])
      []

abbrev pub wake_attempt_model : Table
wake_attempt_model =
    new_table "wake_attempts"
      (column "id" uuid
        ∷ column "machine_id" uuid
        ∷ column "actor_type" (varchar 20)
        ∷ column "actor_id" (varchar 255)
        ∷ column "strategy" (varchar 20)
        ∷ column "status" (varchar 20)
        ∷ column "ensure_online" boolean
        ∷ column "poll_timeout_s" integer
        ∷ optional "error" plain_text
        ∷ column "started_at" timestamp
        ∷ optional "finished_at" timestamp
        ∷ [])
      (primary_key "id"
        ∷ foreign_key none "machine_id" "machines" "id" cascade
        ∷ check "ck_wake_attempts_status"
            (one_of "status" ("pending" ∷ "sent" ∷ "waking" ∷ "online" ∷ "failed" ∷ "timeout" ∷ []))
        ∷ [])
      (index "ix_wake_attempts_machine_started" ("machine_id" ∷ "started_at" ∷ []) ∷ [])

abbrev pub wake_job_model : Table
wake_job_model =
    new_table "wake_jobs"
      (column "id" uuid
        ∷ column "machine_id" uuid
        ∷ column "attempt_id" uuid
        ∷ column "job_type" (varchar 20)
        ∷ column "status" (varchar 20)
        ∷ column "payload" jsonb
        ∷ optional "claimed_at" timestamp
        ∷ column "created_at" timestamp
        ∷ [])
      (primary_key "id"
        ∷ foreign_key none "machine_id" "machines" "id" cascade
        ∷ foreign_key none "attempt_id" "wake_attempts" "id" cascade
        ∷ unique none "attempt_id"
        ∷ check "ck_wake_jobs_status"
            (one_of "status" ("queued" ∷ "running" ∷ "done" ∷ "error" ∷ []))
        ∷ check "ck_wake_jobs_type" (one_of "job_type" ("wake" ∷ "ensure_online" ∷ []))
        ∷ [])
      (index "ix_wake_jobs_status_created" ("status" ∷ "created_at" ∷ []) ∷ [])

abbrev pub probe_result_model : Table
probe_result_model =
    new_table "probe_results"
      (column "id" uuid
        ∷ column "machine_id" uuid
        ∷ column "ping_ok" boolean
        ∷ column "tcp_ssh_ok" boolean
        ∷ column "derived_state" (varchar 20)
        ∷ stamped "observed_at"
        ∷ [])
      (primary_key "id" ∷ foreign_key none "machine_id" "machines" "id" cascade ∷ [])
      (index "ix_probe_results_machine_observed" ("machine_id" ∷ "observed_at" ∷ []) ∷ [])

abbrev pub session_model : Table
session_model =
    new_table "sessions"
      (column "id" uuid
        ∷ column "user_id" uuid
        ∷ column "csrf_secret" (varchar 128)
        ∷ optional "ip" inet
        ∷ optional "user_agent" plain_text
        ∷ column "expires_at" timestamp
        ∷ column "revoked" boolean
        ∷ column "created_at" timestamp
        ∷ [])
      (primary_key "id" ∷ foreign_key none "user_id" "users" "id" cascade ∷ [])
      (index "ix_sessions_user_expires" ("user_id" ∷ "expires_at" ∷ []) ∷ [])

abbrev pub api_token_model : Table
api_token_model =
    new_table "api_tokens"
      (column "id" uuid
        ∷ column "user_id" uuid
        ∷ optional "machine_id" uuid
        ∷ column "name" (varchar 255)
        ∷ column "token_hash" (varchar 128)
        ∷ column "prefix" (varchar 16)
        ∷ column "scopes" jsonb
        ∷ optional "last_used_at" timestamp
        ∷ optional "revoked_at" timestamp
        ∷ column "created_at" timestamp
        ∷ [])
      (primary_key "id"
        ∷ foreign_key none "user_id" "users" "id" cascade
        ∷ foreign_key none "machine_id" "machines" "id" set_null
        ∷ unique (some "uq_api_tokens_hash") "token_hash"
        ∷ [])
      (index "ix_api_tokens_machine_id" ("machine_id" ∷ []) ∷ [])

abbrev pub audit_event_model : Table
audit_event_model =
    new_table "audit_events"
      (column "id" big_integer
        ∷ column "actor_type" (varchar 20)
        ∷ column "actor_id" (varchar 255)
        ∷ column "action" (varchar 100)
        ∷ optional "target_type" (varchar 50)
        ∷ optional "target_id" (varchar 255)
        ∷ optional "ip" inet
        ∷ column "metadata" jsonb
        ∷ stamped "created_at"
        ∷ [])
      (primary_key "id" ∷ []) (index "ix_audit_events_created" ("created_at" ∷ []) ∷ [])

abbrev pub setting_model : Table
setting_model =
    new_table "settings"
      (column "key" (varchar 100) ∷ column "value" jsonb ∷ column "updated_at" timestamp ∷ [])
      (primary_key "key" ∷ []) []

abbrev pub setup_state_model : Table
setup_state_model =
    new_table "setup_state"
      (column "id" integer
        ∷ column "completed" boolean
        ∷ column "current_step" (varchar 50)
        ∷ column "completed_steps" jsonb
        ∷ column "updated_at" timestamp
        ∷ [])
      (primary_key "id" ∷ check "ck_setup_state_singleton" (equals "id" 1) ∷ []) []

-- Base.metadata
abbrev pub metadata : List Table
metadata =
    user_model ∷ machine_model ∷ wake_attempt_model ∷ wake_job_model ∷ probe_result_model
    ∷ session_model ∷ api_token_model ∷ audit_event_model ∷ setting_model ∷ setup_state_model ∷ []
