-- ===== src/Persistence/Links/Removal.antt =====
-- What the removal of a machine does to the foreign keys.
use mathlib.Core.Bool.{false≢true}
use mathlib.Core.Option.{some-injective}
use wol_monkey.Common.{
  String, ◌≡◌, refl, sym, ap, ◌∙◌, Bool, true, false, not, ◌&&◌, ◌||◌, none, some, ◌==◌, any,
  select, In-select, not-In, eq_iff, is_some, Bool-cases, Option-cases, arith, inl, inr,
}
use wol_monkey.Domain.Records.{ApiToken}
use wol_monkey.Host.{Host}
use wol_monkey.World.{Db}
use wol_monkey.Persistence.Machines.{remove_row, forget, goes}
use wol_monkey.Persistence.Links.{has_machine, IsLinked}
use wol_monkey.Persistence.Links.Rows.{any_kept, In-changed}

still_there :
    (key other : String) (db : Db)
    → (other == key) ≡ false
    → has_machine other db ≡ true
    → any (λ m. m.id == other) (select (λ m. not (m.id == key)) db.machines) ≡ true
still_there key other db differs e =
    any_kept (λ m. m.id == other) (λ m. not (m.id == key)) db.machines
      (λ m i same. ground (arith, eq_iff m.id other)) e

kept_row : (a b : Bool) → not (a || b) ≡ true → (a ≡ false) × (b ≡ false)
kept_row a b e = ground arith

module _ (h : Host) where
  -- The machine that a token names after another has been forgotten.
  forgotten :
      (key other : String) (t : ApiToken)
      → (forget h key t).machine_id ≡ some other
      → (t.machine_id ≡ some other) × ((other == key) ≡ false)
  forgotten key other t e = elim (Option-cases t.machine_id) [
    | inl bare ↦
        let same : (forget h key t).machine_id ≡ none = rw (bare, forget) bare in
        absurd (false≢true (ap is_some (sym same ∙ e)))
    | inr (m, bound) ↦ elim (Bool-cases (m == key)) [
      | inl gone ↦
          let same : (forget h key t).machine_id ≡ none = rw (bound, forget) (rw gone refl) in
          absurd (false≢true (ap is_some (sym same ∙ e)))
      | inr kept ↦
          let same : (forget h key t).machine_id ≡ some m = rw (bound, forget) (rw kept bound) in
          let named : m ≡ other = some-injective _ _ (sym same ∙ e) in
          (bound ∙ ap (λ k. some k) named, ap (λ k. k == key) (sym named) ∙ kept)
    ]
  ]

  pub machine_removed : (key : String) (db : Db) → IsLinked db → IsLinked (remove_row h key db)
  unfolding remove_row
  machine_removed key db l = record {
    attempts = λ a i.
        let (there, kept) = In-select (λ x. not (x.machine_id == key)) db.attempts a i in
        still_there key a.machine_id db (ground arith) (l.attempts a there);
    jobs = λ j i.
        let (there, kept) = In-select (λ x. not (goes h key db.attempts x)) db.jobs j i in
        let (own, others) = kept_row (j.machine_id == key) _ kept in
        let (machine, attempt) = l.jobs j there in
        (
          still_there key j.machine_id db own machine,
          any_kept (λ x. x.id == j.attempt_id) (λ x. not (x.machine_id == key)) db.attempts
              (λ x m named.
                let free =
                  not-In (λ y. y.id == j.attempt_id && y.machine_id == key) db.attempts x others
                    m in
                ground arith)
              attempt,
        );
    tokens = λ u other i e.
        let (t, there, from) = In-changed (λ x. true) (forget h key) db.tokens u i in
        elim from [
          | inl (s, missed) ↦ absurd (false≢true (sym missed))
          | inr s ↦
              let (named, differs) = forgotten key other t (ap (λ x. x.machine_id) s ∙ e) in
              still_there key other db differs (l.tokens t other there named)
        ];
  }
