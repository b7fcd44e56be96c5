-- ===== src/Persistence/Links/Changes.antt =====
-- What one change of a table does to the foreign keys.
use wol_monkey.Common.{
  String, ◌≡◌, sym, ap, ◌∙◌, Bool, true, some, List, [], ◌∷◌, ◌++◌, ◌==◌, any, update_where,
  In-append, eq_iff, arith, inl, inr,
}
use wol_monkey.Domain.Records.{Machine, Attempt, ApiToken}
use wol_monkey.World.{Db}
use wol_monkey.Persistence.Links.{has_machine, IsLinked}
use wol_monkey.Persistence.Links.Rows.{any_grown, any_updated, In-changed}

-- The same rows, over machines of which none is missing.
more_machines :
    (machines : List Machine) (db : Db)
    → ((key : String) → has_machine key db ≡ true → any (λ m. m.id == key) machines ≡ true)
    → IsLinked db
    → IsLinked (record db { machines = machines })
more_machines machines db there l = record {
  attempts = λ a i. there a.machine_id (l.attempts a i);
  jobs = λ j i. (there j.machine_id (l.jobs j i).0, (l.jobs j i).1);
  tokens = λ t key i e. there key (l.tokens t key i e);
}

pub machine_added :
    (row : Machine) (db : Db)
    → IsLinked db
    → IsLinked (record db { machines = db.machines ++ row ∷ [] })
machine_added row db l =
    more_machines _ db (λ key. any_grown (λ m. m.id == key) db.machines (row ∷ [])) l

pub machine_replaced :
    (m row : Machine) (db : Db)
    → row.id ≡ m.id
    → IsLinked db
    → IsLinked (record db { machines = update_where (λ r. r.id == m.id) (λ r. row) db.machines })
machine_replaced m row db named l = more_machines _ db kept l
  where
    kept :
        (key : String)
        → has_machine key db ≡ true
        → any (λ x. x.id == key) (update_where (λ r. r.id == m.id) (λ r. row) db.machines) ≡ true
    kept key e =
        any_updated (λ x. x.id == key) (λ r. r.id == m.id) (λ r. row) db.machines
          (λ x same.
            let equal : x.id ≡ m.id = ground (arith, eq_iff x.id m.id) in
            ap (λ i. i == key) (named ∙ sym equal))
        ∙ e

pub attempt_added :
    (a : Attempt) (db : Db)
    → has_machine a.machine_id db ≡ true
    → IsLinked db
    → IsLinked (record db { attempts = db.attempts ++ a ∷ [] })
attempt_added a db known l = record {
  attempts = λ b i. elim (In-append db.attempts a b i) [
    | inl e ↦ ap (λ x. has_machine x.machine_id db) e ∙ known
    | inr there ↦ l.attempts b there
  ];
  jobs = λ j i.
      ((l.jobs j i).0, any_grown (λ x. x.id == j.attempt_id) db.attempts (a ∷ []) (l.jobs j i).1);
  tokens = l.tokens;
}

pub attempts_changed :
    (q : Attempt → Bool) (f : Attempt → Attempt) (db : Db)
    → ((a : Attempt) → ((f a).id ≡ a.id) × ((f a).machine_id ≡ a.machine_id))
    → IsLinked db
    → IsLinked (record db { attempts = update_where q f db.attempts })
attempts_changed q f db same l = record {
  attempts = λ b i.
      let (a, there, from) = In-changed q f db.attempts b i in
      elim from [
        | inl (e, _) ↦ ap (λ x. has_machine x.machine_id db) (sym e) ∙ l.attempts a there
        | inr e ↦
            ap (λ x. has_machine x.machine_id db) (sym e)
            ∙ ap (λ k. has_machine k db) (same a).1
            ∙ l.attempts a there
      ];
  jobs = λ j i. (
    (l.jobs j i).0,
    any_updated (λ x. x.id == j.attempt_id) q f db.attempts
          (λ x e. ap (λ k. k == j.attempt_id) (same x).0)
        ∙ (l.jobs j i).1,
  );
  tokens = l.tokens;
}

pub token_added :
    (t : ApiToken) (db : Db)
    → ((key : String) → t.machine_id ≡ some key → has_machine key db ≡ true)
    → IsLinked db
    → IsLinked (record db { tokens = db.tokens ++ t ∷ [] })
token_added t db known l = record {
  attempts = l.attempts;
  jobs = l.jobs;
  tokens = λ u key i e. elim (In-append db.tokens t u i) [
    | inl same ↦ known key (ap (λ x. x.machine_id) (sym same) ∙ e)
    | inr there ↦ l.tokens u key there e
  ];
}

pub tokens_changed :
    (q : ApiToken → Bool) (f : ApiToken → ApiToken) (db : Db)
    → ((t : ApiToken) → (f t).machine_id ≡ t.machine_id)
    → IsLinked db
    → IsLinked (record db { tokens = update_where q f db.tokens })
tokens_changed q f db same l = record {
  attempts = l.attempts;
  jobs = l.jobs;
  tokens = λ u key i e.
      let (t, there, from) = In-changed q f db.tokens u i in
      elim from [
        | inl (s, _) ↦ l.tokens t key there (ap (λ x. x.machine_id) s ∙ e)
        | inr s ↦ l.tokens t key there (sym (same t) ∙ ap (λ x. x.machine_id) s ∙ e)
      ];
}
