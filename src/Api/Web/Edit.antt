-- ===== src/Api/Web/Edit.antt =====
-- A machine's form that is refused.
use mathlib.Core.Path.{subst}
use wol_monkey.Common.{String, ◌≡◌, refl, sym, ap, ◌∙◌, Option, none, some}
use wol_monkey.Domain.Records.{User, Machine}
use wol_monkey.Host.{Host}
use wol_monkey.World.{World, Db}
use wol_monkey.Exec.{Exec, Result, ok, err, pure, ◌>>=◌}
use wol_monkey.Exec.Reads.{bind-ok, Reads-db, Reads-saved}
use wol_monkey.Persistence.Machines
use wol_monkey.Api.Atomic.Services.{update_machine as change_saved}
use wol_monkey.Api.Security.{Request}
use wol_monkey.Api.Web.{Reply, machine_error, attempt}
use wol_monkey.Api.Web.Reading.{found_machine, gate, csrf}
use wol_monkey.Api.Web.Forms.{
  MachineForm, web_session, with_user, or_login, get_csrf, after_edit, form_changes,
  machine_edit_post,
}

module _ (h : Host) where
  -- The form comes back with the row that the committed tables hold, and of the request nothing is
  -- left in them or in the session.
  pub record IsRefused (id : String) (machine : Option Machine) (saved : Db) (w : World)
      : Type 0 where
    pub rolled_back : w.db ≡ saved
    pub kept : w.saved ≡ saved
    pub seen : World
    pub committed : seen.db ≡ saved
    pub shown : (Machines.get_by_id h id seen).0 ≡ ok machine

  after_edit-IsRefused :
      (id csrf_token : String) (x : Result (Option Machine)) (v : World) (machine : Option Machine)
      (shown_token detail : String)
      → (after_edit h id csrf_token x v).0 ≡ ok (machine_error machine shown_token detail)
      → IsRefused id machine v.saved (after_edit h id csrf_token x v).1
  unfolding after_edit
  after_edit-IsRefused id csrf_token (ok m) v machine shown_token detail e = cc
  after_edit-IsRefused id csrf_token (err y) v machine shown_token detail e =
      let rolled : World = record v { db = v.saved } in
      let (found, got, answer, left) =
        bind-ok (Machines.get_by_id h id) (λ m. pure (machine_error m csrf_token y.detail)) rolled _
          e in
      let same : found ≡ machine = cc in
      record {
        rolled_back = ap (λ x. x.db) left ∙ Reads-db _ rolled (found_machine h id);
        kept = ap (λ x. x.saved) left ∙ Reads-saved _ rolled (found_machine h id);
        seen = rolled;
        committed = refl;
        shown = got ∙ ap (λ m. ok m) same;
      }

  posted-IsRefused :
      (id : String) (r : Request) (form : MachineForm) (v : World) (machine : Option Machine)
      (shown_token detail : String)
      → ((do
        token ← get_csrf h r.cookie
        result ← attempt (Machines.update h id (form_changes form))
        after_edit h id token result)
          v).0
        ≡ ok (machine_error machine shown_token detail)
      → IsRefused id machine v.saved
          ((do
            token ← get_csrf h r.cookie
            result ← attempt (Machines.update h id (form_changes form))
            after_edit h id token result)
            v).1
  posted-IsRefused id r form v machine shown_token detail e =
      let (token, signed, answer, left) = bind-ok (get_csrf h r.cookie) _ v _ e in
      let after = (get_csrf h r.cookie v).1 in
      let (x, v') = Machines.update h id (form_changes form) after in
      let kept : v'.saved ≡ v.saved =
        (change_saved h id (form_changes form)).at after ∙ Reads-saved _ v (csrf h r.cookie) in
      subst (IsRefused id machine v.saved) (sym left) (
        subst (λ db. IsRefused id machine db (after_edit h id token x v').1) kept
          (after_edit-IsRefused id token x v' machine shown_token detail answer))

  -- If the handler of the form for a changed machine answers the form again with an error, then no
  -- table has changed, in the session or as committed, and the form shows the committed row.
  pub machine_edit_post-IsRefused :
      (id : String) (r : Request) (form : MachineForm) (w : World) (machine : Option Machine)
      (shown_token detail : String)
      → (machine_edit_post h id r form w).0 ≡ ok (machine_error machine shown_token detail)
      → IsRefused id machine w.saved (machine_edit_post h id r form w).1
  unfolding machine_edit_post with_user
  machine_edit_post-IsRefused id r form w machine shown_token detail e =
      let (o, there, answer, left) = bind-ok (web_session h r.cookie) _ w _ e in
      subst (IsRefused id machine w.saved) (sym left)
        (inside o (web_session h r.cookie w).1 (Reads-saved _ w (gate h r.cookie)) answer)
    where
      body : User → Exec Reply
      body user = do
        token ← get_csrf h r.cookie
        result ← attempt (Machines.update h id (form_changes form))
        after_edit h id token result

      inside :
          (o : Option User) (v : World)
          → v.saved ≡ w.saved
          → (or_login h o body v).0 ≡ ok (machine_error machine shown_token detail)
          → IsRefused id machine w.saved (or_login h o body v).1
      inside none v kept e = cc
      inside (some u) v kept e =
          subst (λ db. IsRefused id machine db (body u v).1) kept
            (posted-IsRefused id r form v machine shown_token detail e)
