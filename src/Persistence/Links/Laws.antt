-- ===== src/Persistence/Links/Laws.antt =====
-- The foreign keys over any methods of the repositories, in one session.
use mathlib.Core.Bool.{false≢true}
use mathlib.Core.Option.{some-injective}
use wol_monkey.Common.{
  ℕ, suc, String, ◌≡◌, refl, sym, ap, ◌∙◌, true, Option, none, some, List, [], ◌∷◌, ◌==◌, any,
  is_some, Bool-cases, Option-cases, ◌⊎◌, inl, inr,
}
use wol_monkey.Domain.Attempt.{AttemptStatus}
use wol_monkey.Host.{Host}
use wol_monkey.World.{World}
use wol_monkey.Exec.{Error, ok, err}
use wol_monkey.Persistence.Machines
use wol_monkey.Persistence.Machines.{NewMachine, Change, set_attrs, set_attr}
use wol_monkey.Persistence.Attempts
use wol_monkey.Persistence.Attempts.{NewAttempt, with_status}
use wol_monkey.Persistence.Tokens
use wol_monkey.Persistence.Tokens.{NewToken}
use wol_monkey.Persistence.Links.{has_machine, IsLinked}
use wol_monkey.Persistence.Links.Changes.{
  attempt_added, attempts_changed, token_added, tokens_changed,
}
use wol_monkey.Persistence.Links.MachineRows.{machine_created, machine_updated, machine_deleted}

-- A method that writes machines, attempts or tokens.
pub data Method : Type 0 where
  create_machine : NewMachine → Method
  update_machine : String → List Change → Method
  delete_machine : String → Method
  create_attempt : NewAttempt → Method
  update_status : String → AttemptStatus → Option String → Option ℕ → Method
  create_token : NewToken → Method
  revoke_token : String → Method
  touch_token : String → Method

module _ (h : Host) where
  -- The world after it, whether it returns or raises.
  abbrev pub apply : Method → World → World
  apply (create_machine args) w = (Machines.create h args w).1
  apply (update_machine id changes) w = (Machines.update h id changes w).1
  apply (delete_machine id) w = (Machines.delete h id w).1
  apply (create_attempt args) w = (Attempts.create h args w).1
  apply (update_status id status error at) w = (Attempts.update_status h id status error at w).1
  apply (create_token args) w = (Tokens.create h args w).1
  apply (revoke_token id) w = (Tokens.revoke h id w).1
  apply (touch_token id) w = (Tokens.touch_last_used h id w).1

  abbrev pub apply_all : List Method → World → World
  apply_all [] w = w
  apply_all (o ∷ os) w = apply_all os (apply o w)

  attempt_created :
      (args : NewAttempt) (w : World) → IsLinked w.db → IsLinked (Attempts.create h args w).1.db
  unfolding Attempts.create
  attempt_created args w l = elim (Option-cases (h.canonical args.machine_id)) [
    | inl bad ↦ rw bad l
    | inr (key, good) ↦ elim (Bool-cases (has_machine key w.db)) [
      | inr missing ↦ rw good (rw missing l)
      | inl there ↦ rw good (rw there (attempt_added _ w.db there l))
    ]
  ]

  status_updated :
      (id : String) (status : AttemptStatus) (error : Option String) (at : Option ℕ) (w : World)
      → IsLinked w.db
      → IsLinked (Attempts.update_status h id status error at w).1.db
  unfolding Attempts.update_status with_status
  status_updated id status error at w l = elim (Option-cases (h.canonical id)) [
    | inl bad ↦ rw bad l
    | inr (key, good) ↦ rw good (attempts_changed _ _ w.db (λ a. (refl, refl)) l)
  ]

  -- A token is bound to no machine, or to one that is there; or the flush raises.
  keyed :
      (o : Option String) (w : World)
      → ((e : Error) × (Tokens.machine_key h o w ≡ (err e, w)))
        ⊎ ((k : Option String) × (Tokens.machine_key h o w ≡ (ok k, w))
            × ((key : String) → k ≡ some key → has_machine key w.db ≡ true))
  unfolding Tokens.machine_key
  keyed none w = inr (none, refl, λ key e. absurd (false≢true (ap is_some e)))
  keyed (some id) w = elim (Option-cases (h.canonical id)) [
    | inl bad ↦ rw bad (inl (_, refl))
    | inr (k, good) ↦ elim (Bool-cases (has_machine k w.db)) [
      | inr missing ↦ rw good (rw missing (inl (_, refl)))
      | inl there ↦ rw good (
          rw there (
            inr (
              some k,
              refl,
              λ key e. ap (λ x. has_machine x w.db) (sym (some-injective _ _ e)) ∙ there,
            )))
    ]
  ]

  token_created :
      (args : NewToken) (w : World) → IsLinked w.db → IsLinked (Tokens.create h args w).1.db
  unfolding Tokens.create
  token_created args w l =
      let v : World = record w { calls = suc (suc w.calls) } in
      elim (Option-cases (h.canonical args.user_id)) [
        | inl bad ↦ rw bad l
        | inr (user, good) ↦ elim (keyed args.machine_id v) [
          | inl (e, failed) ↦ rw good (rw failed l)
          | inr (k, bound, there) ↦ elim (Bool-cases (any (λ u. u.id == user) w.db.users)) [
            | inr missing ↦ rw good (rw bound (rw missing l))
            | inl known ↦
                elim (Bool-cases (any (λ t. t.token_hash == args.token_hash) w.db.tokens)) [
                  | inl taken ↦ rw good (rw bound (rw known (rw taken l)))
                  | inr free ↦ rw good (rw bound (rw known (rw free (token_added _ w.db there l))))
                ]
          ]
        ]
      ]

  revoked : (id : String) (w : World) → IsLinked w.db → IsLinked (Tokens.revoke h id w).1.db
  unfolding Tokens.revoke
  revoked id w l = elim (Option-cases (h.canonical id)) [
    | inl bad ↦ rw bad l
    | inr (key, good) ↦ rw good (tokens_changed _ _ w.db (λ t. refl) l)
  ]

  touched :
      (id : String) (w : World) → IsLinked w.db → IsLinked (Tokens.touch_last_used h id w).1.db
  unfolding Tokens.touch_last_used
  touched id w l = elim (Option-cases (h.canonical id)) [
    | inl bad ↦ rw bad l
    | inr (key, good) ↦ rw good (tokens_changed _ _ w.db (λ t. refl) l)
  ]

  apply-IsLinked : (o : Method) (w : World) → IsLinked w.db → IsLinked (apply o w).db
  apply-IsLinked (create_machine args) w l = machine_created h args w l
  apply-IsLinked (update_machine id changes) w l = machine_updated h id changes w l
  apply-IsLinked (delete_machine id) w l = machine_deleted h id w l
  apply-IsLinked (create_attempt args) w l = attempt_created args w l
  apply-IsLinked (update_status id status error at) w l = status_updated id status error at w l
  apply-IsLinked (create_token args) w l = token_created args w l
  apply-IsLinked (revoke_token id) w l = revoked id w l
  apply-IsLinked (touch_token id) w l = touched id w l

  -- However machines, attempts and tokens are written in one session, and whether or not a method
  -- raises: if at first every attempt, job and bound token names a machine that is there, and every
  -- job an attempt that is there, this is so at the end.
  pub apply_all-IsLinked :
      (os : List Method) (w : World) → IsLinked w.db → IsLinked (apply_all os w).db
  apply_all-IsLinked [] w l = l
  apply_all-IsLinked (o ∷ os) w l = apply_all-IsLinked os (apply o w) (apply-IsLinked o w l)
