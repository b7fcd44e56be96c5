-- ===== src/Api/Web/NewMachine.antt =====
-- The form for a new machine that is accepted.
use mathlib.Core.Path.{subst}
use mathlib.Core.Bool.{false≢true}
use wol_monkey.Common.{
  ℕ, suc, ◌+◌, String, ◌≡◌, ◌≢◌, ◌↔◌, refl, sym, ap, ◌∙◌, true, false, Option, none, some, [], ◌∷◌,
  ◌++◌, Bool, ◌==◌, In, not-In, any, Bool-cases, eq_iff, eq_refl, arith, inl, inr,
}
use wol_monkey.Domain.Records.{User, Machine}
use wol_monkey.Host.{Host}
use wol_monkey.World.{World, Db}
use wol_monkey.Exec.{Exec, Result, ok, err, pure, modify, continue, ◌>>=◌, ◌>>◌}
use wol_monkey.Exec.Reads.{bind-ok, Reads-db}
use wol_monkey.Persistence.Machines
use wol_monkey.Persistence.Machines.{NewMachine, passes_checks}
use wol_monkey.Persistence.Machines.Flush.{taken_by, Kept, Encoded, Flushed, refused, passed, flush}
use wol_monkey.Persistence.Machines.Table.{IsValid, passes_checks-IsValid}
use wol_monkey.Api.Security.{Request}
use wol_monkey.Api.Web.{Reply, redirect, attempt}
use wol_monkey.Api.Web.Reading.{gate, csrf}
use wol_monkey.Api.Web.Forms.{
  MachineForm, or_none, form_machine, web_session, or_login, with_user, get_csrf, after_new,
  machine_new_post,
}

-- A field of the form that may stay empty.
pub data Field (text : String) : Option String → Type 0 where
  empty : text ≡ "" → Field text none
  filled : text ≢ "" → Field text (some text)

or_none-Field : (s : String) → Field s (or_none s)
or_none-Field s = elim (Bool-cases (s == "")) [
  | inl e ↦ rw e (empty (ground (arith, eq_iff s "")))
  | inr e ↦ rw e (filled (λ same. ground (arith, eq_iff s "")))
]

to_list : Result Reply → Bool
to_list (ok (redirect path)) = path == "/machines"
to_list _ = false

module _ (h : Host) where
  -- The tables with one machine more, which has what the fields say; its port and strategy are valid,
  -- and its MAC address is that of no machine that was there.
  pub record IsStored (form : MachineForm) (before after : Db) : Type 0 where
    pub row : Machine
    pub tables : after ≡ record before { machines = before.machines ++ row ∷ [] }
    pub name : row.name ≡ form.name
    pub ip : h.inet form.ip_address ≡ some row.ip_address
    pub mac : h.macaddr form.mac_address ≡ some row.mac_address
    pub port : row.ssh_port ≡ form.ssh_port
    pub strategy : row.wake_strategy ≡ form.wake_strategy
    pub hostname : Field form.hostname row.hostname
    pub wake_interface : Field form.wake_interface row.wake_interface
    pub broadcast_text : Option String
    pub broadcast_field : Field form.broadcast_address broadcast_text
    pub broadcast : Kept h broadcast_text row.broadcast_address
    pub enabled : (row.enabled ≡ true) ↔ (form.enabled ≡ "1")
    pub valid : IsValid row
    pub free :
        (m : Machine) → In m before.machines → m.mac_address ≡ row.mac_address → m.id ≡ row.id

  -- What the insert is given.
  abbrev model : String → ℕ → MachineForm → Machine
  model id at form = record {
    id = id;
    name = form.name;
    hostname = or_none form.hostname;
    ip_address = form.ip_address;
    mac_address = form.mac_address;
    ssh_port = form.ssh_port;
    wake_interface = or_none form.wake_interface;
    wake_strategy = form.wake_strategy;
    broadcast_address = or_none form.broadcast_address;
    enabled = form.enabled == "1";
    created_at = at;
    updated_at = at;
  }

  row-IsStored :
      (id : String) (at : ℕ) (form : MachineForm) (row : Machine) (before : Db)
      → Encoded h (model id at form) row
      → passes_checks row ≡ true
      → any (taken_by row) before.machines ≡ false
      → IsStored form before (record before { machines = before.machines ++ row ∷ [] })
  row-IsStored id at form row before enc fine free = record {
    row = row;
    tables = refl;
    name = ap (λ x. x.name) enc.rest;
    ip = enc.ip;
    mac = enc.mac;
    port = ap (λ x. x.ssh_port) enc.rest;
    strategy = ap (λ x. x.wake_strategy) enc.rest;
    hostname =
        subst (Field form.hostname) (sym (ap (λ x. x.hostname) enc.rest))
          (or_none-Field form.hostname);
    wake_interface =
        subst (Field form.wake_interface) (sym (ap (λ x. x.wake_interface) enc.rest))
          (or_none-Field form.wake_interface);
    broadcast_text = or_none form.broadcast_address;
    broadcast_field = or_none-Field form.broadcast_address;
    broadcast = enc.broadcast;
    enabled =
        let same : row.enabled ≡ form.enabled == "1" = ap (λ x. x.enabled) enc.rest in
        (
          λ on. ground (arith, eq_iff form.enabled "1"),
          λ one. same ∙ ap (λ t. t == "1") one ∙ eq_refl "1",
        );
    valid = passes_checks-IsValid row fine;
    free = λ x there same.
        let other = not-In (taken_by row) before.machines x free there in
        ground (arith, eq_iff x.mac_address row.mac_address, eq_iff x.id row.id);
  }

  -- The insert that follows the flush, if it returns.
  inserted :
      (id : String) (at : ℕ) (form : MachineForm) (w : World) (x : Result Machine × World)
      → Flushed h (model id at form) w x
      → (m : Machine)
      → let out =
          continue {B = Machine} x.0
            (λ row. do modify (λ db. record db { machines = db.machines ++ row ∷ [] }); pure row)
            x.1 in
        out.0 ≡ ok m → IsStored form w.db out.1.db
  inserted id at form w _ (refused e) m r = cc
  inserted id at form w _ (passed row fine free named encoded) m r =
      row-IsStored id at form row w.db encoded fine free

  create-IsStored :
      (form : MachineForm) (m : Machine) (w : World)
      → (Machines.create h (form_machine form) w).0 ≡ ok m
      → IsStored form w.db (Machines.create h (form_machine form) w).1.db
  unfolding Machines.create form_machine
  create-IsStored form m w r =
      let at : ℕ = h.clock (suc w.calls) + w.slept in
      let v : World = record w { calls = suc (suc w.calls) } in
      inserted (h.uuid w.calls) at form v _ (flush h (model (h.uuid w.calls) at form) v) m r

  after_new-IsStored :
      (form : MachineForm) (token : String) (w : World) (x : Result Machine) (v : World)
      → ((m : Machine) → x ≡ ok m → IsStored form w.db v.db)
      → (after_new h token false x v).0 ≡ ok (redirect "/machines")
      → IsStored form w.db (after_new h token false x v).1.db
  unfolding after_new
  after_new-IsStored form token w (ok m) v stored e = stored m refl
  after_new-IsStored form token w (err x) v stored e = cc

  -- If the handler of the form for a new machine, outside the wizard, sends the browser to the list of
  -- machines, then the tables are those before with one machine more. It has the name, port and
  -- strategy of the form, the addresses as the columns keep those of the form, NULL for each optional
  -- field that was left empty and else its text, and is enabled where the form says "1". The port is
  -- from 1 to 65535, the strategy is known, and no other machine has the MAC address.
  pub machine_new_post-IsStored :
      (r : Request) (form : MachineForm) (w : World)
      → (machine_new_post h r form none w).0 ≡ ok (redirect "/machines")
      → IsStored form w.db (machine_new_post h r form none w).1.db
  unfolding machine_new_post with_user to_list
  machine_new_post-IsStored r form w e =
      let (o, there, answer, left) = bind-ok (web_session h r.cookie) _ w _ e in
      subst (λ x. IsStored form w.db x.db) (sym left)
        (inside o (web_session h r.cookie w).1 (Reads-db _ w (gate h r.cookie)) answer)
    where
      body : User → Exec Reply
      body user = do
        token ← get_csrf h r.cookie
        created ← attempt (Machines.create h (form_machine form))
        after_new h token false created

      posted :
          (u : User) (v : World)
          → (body u v).0 ≡ ok (redirect "/machines")
          → IsStored form v.db (body u v).1.db
      posted u v e =
          let (token, signed, answer, left) = bind-ok (get_csrf h r.cookie) _ v _ e in
          let after = (get_csrf h r.cookie v).1 in
          let (x, v') = Machines.create h (form_machine form) after in
          subst (λ y. IsStored form v.db y.db) (sym left)
            (subst (λ db. IsStored form db (after_new h token false x v').1.db)
              (Reads-db _ v (csrf h r.cookie))
              (after_new-IsStored form token after x v' (λ m. create-IsStored form m after) answer))

      inside :
          (o : Option User) (v : World)
          → v.db ≡ w.db
          → (or_login h o body v).0 ≡ ok (redirect "/machines")
          → IsStored form w.db (or_login h o body v).1.db
      inside none v kept e = absurd (false≢true (ap to_list e))
      inside (some u) v kept e = subst (λ db. IsStored form db (body u v).1.db) kept (posted u v e)
