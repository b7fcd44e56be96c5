-- ===== src/Tests/Tables.antt =====
-- The foreign keys at a concrete database.
use mathlib.Core.Path.{subst}
use mathlib.Core.Option.{some-injective}
use wol_monkey.Common.{true, ap, ◌∙◌, ◌≡◌, refl, false, none, some, List, [], ◌∷◌, inl, inr, any}
use wol_monkey.Domain.Attempt.{pending, sent}
use wol_monkey.Domain.Records.{Attempt, Job, ApiToken, queued, failure}
use wol_monkey.World.{World}
use wol_monkey.Persistence.Attempts.{NewAttempt}
use wol_monkey.Persistence.Links.{IsLinked, has_machine}
use wol_monkey.Persistence.Links.Laws.{
  Method, create_attempt, update_status, delete_machine, apply_all, apply_all-IsLinked,
}
use wol_monkey.Tests.Fixtures.{quiet_host, small_db, small_world}

abbrev waiting : Attempt
waiting = record {
  id = "attempt";
  machine_id = "nas";
  actor_type = "user";
  actor_id = "alice";
  strategy = "udp_broadcast";
  status = pending;
  ensure_online = false;
  poll_timeout_s = 60;
  error = none;
  started_at = 0;
  finished_at = none;
}

abbrev its_job : Job
its_job = record {
  id = "job";
  machine_id = "nas";
  attempt_id = "attempt";
  job_type = "wake";
  status = queued;
  payload = failure "";
  claimed_at = none;
  created_at = 0;
}

abbrev bound_token : ApiToken
bound_token = record {
  id = "token";
  user_id = "alice";
  machine_id = some "nas";
  name = "token";
  token_hash = "hash";
  prefix = "";
  scopes = [];
  last_used_at = none;
  revoked_at = none;
  created_at = 0;
}

abbrev linked_world : World
linked_world = record small_world {
  db = record small_db { attempts = waiting ∷ []; jobs = its_job ∷ []; tokens = bound_token ∷ [] };
}

linked : IsLinked linked_world.db
unfolding any
linked = record {
  attempts = λ a i. elim i [ inl e ↦ rw⁻¹ e refl | inr i ↦ absurd i.1 ];
  jobs = λ j i. elim i [ inl e ↦ rw⁻¹ e (refl, refl) | inr i ↦ absurd i.1 ];
  tokens = λ t key i e. elim i [
    | inl s ↦
        let named : "nas" ≡ key = some-injective _ _ (ap (λ x. x.machine_id) s ∙ e) in
        subst (λ k. has_machine k linked_world.db ≡ true) named refl
    | inr i ↦ absurd i.1
  ];
}

abbrev new_attempt : NewAttempt
new_attempt = record {
  machine_id = "nas";
  actor_type = "user";
  actor_id = "alice";
  strategy = "etherwake";
  ensure_online = false;
  poll_timeout_s = 60;
}

-- Another attempt is made, the first is sent, and then the machine is removed.
abbrev methods : List Method
methods =
    create_attempt new_attempt ∷ update_status "attempt" sent none none ∷ delete_machine "nas" ∷ []

apply_all-IsLinked_example : IsLinked (apply_all quiet_host methods linked_world).db
apply_all-IsLinked_example = apply_all-IsLinked quiet_host methods linked_world linked
