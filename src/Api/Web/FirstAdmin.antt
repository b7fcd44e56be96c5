-- ===== src/Api/Web/FirstAdmin.antt =====
-- The wizard's form for the first account.
use mathlib.Core.Path.{subst}
use wol_monkey.Common.{
  ℕ, suc, String, ◌≡◌, refl, sym, false, Option, some, [], ◌∷◌, ◌++◌, eq_refl, find, select,
  update_where, Option-cases, inl, inr,
}
use wol_monkey.Domain.Records.{User, Session, SetupState}
use wol_monkey.Host.{Host, IsLawful, verified}
use wol_monkey.World.{World}
use wol_monkey.Exec.{Result, ok}
use wol_monkey.Persistence.Setup
use wol_monkey.Persistence.Machines.Flush.{Kept}
use wol_monkey.Services.Auth.Laws.{admin_row, create_admin_lem}
use wol_monkey.Services.Auth.SessionLife.{session_row, seen_at, login_time, logged_in, login_lem}
use wol_monkey.Services.Setup.{advance, advanced, next_step, index}
use wol_monkey.Services.Setup.Laws.{shown}
use wol_monkey.Api.Security.{Request}
use wol_monkey.Api.Web.{Reply, cookie, admin_form, after_admin, setup_admin_post, on_authentication}

module _ (h : Host) where
  abbrev with_setup : SetupState → ℕ → World → World
  with_setup row n w = record w { db = record w.db { setup = some row }; calls = n }

  advanced_world :
      (step : String) (w : World)
      → (row : SetupState) × (n : ℕ) × (advance h step w ≡ (ok tt, with_setup row n w))
        × (row.current_step ≡ (advanced step (shown w).completed_steps).current_step)
  unfolding advance Setup.get Setup.get_or_create Setup.update Setup.put
  advanced_world step w = elim (Option-cases w.db.setup) [
    | inl e ↦ rw (e, advance) (_, _, refl, refl)
    | inr (r, e) ↦ rw (e, advance) (_, _, refl, refl)
  ]

  refused_again :
      (r : Request) (username password : String) (w : World) (user : User)
      → w.db.users ≡ user ∷ []
      → setup_admin_post h r username password w
        ≡ (ok (admin_form username "Admin account already exists"), w)
  unfolding setup_admin_post after_admin on_authentication
  refused_again r username password w user e =
      rw (create_admin_lem h username password w) (rw e refl)

  -- What the first account leaves behind.
  pub record IsAdmin (username password : String) (reply : Result Reply) (w w' : World)
      : Type 0 where
    pub user : User
    pub alone : w'.db.users ≡ user ∷ []
    pub named : user.username ≡ username
    pub hashed : user.password_hash ≡ h.argon2_hash w.calls password
    pub role : user.role ≡ "admin"
    pub session : Session
    pub added : w'.db.sessions ≡ w.db.sessions ++ session ∷ []
    pub owned : session.user_id ≡ user.id
    pub answer : reply ≡ ok (cookie "/setup/network" session.id)
    pub step : (shown w').current_step ≡ "network"
    pub closed :
        (r : Request) (username' password' : String)
        → setup_admin_post h r username' password' w'
          ≡ (ok (admin_form username' "Admin account already exists"), w')

  -- With no account there, on a lawful host, for a client without an address or with one that the
  -- column of type INET takes, and for a password that verifies against its own fresh hash, which needs
  -- no renewal: the form makes the only account, an admin with that name and hash,
  -- opens a session for it, sets the cookie to the session's id and moves the wizard to the network
  -- step. The password may be any text, also an empty one. From then on every such form is refused
  -- and changes nothing.
  pub setup_admin_post-IsAdmin :
      IsLawful h
      → (r : Request) (username password : String) (kept : Option String) (w : World)
      → Kept h r.client_host kept
      → w.db.users ≡ []
      → h.argon2_verify (h.argon2_hash w.calls password) password ≡ verified
      → h.argon2_needs_rehash (h.argon2_hash w.calls password) ≡ false
      → IsAdmin username password
          (setup_admin_post h r username password w).0
          w
          (setup_admin_post h r username password w).1
  unfolding setup_admin_post after_admin select find update_where advanced next_step index
  setup_admin_post-IsAdmin lawful r username password kept w stored empty verifies current =
      let admin = admin_row h username password w in
      let created : World = record w {
        db = record w.db { users = admin ∷ [] };
        calls = suc (suc (suc w.calls));
      } in
      let (row, n, moved, at_step) = advanced_world "admin_account" created in
      let ready = with_setup row n created in
      let logged =
        login_lem h admin password r.client_host kept r.user_agent ready stored
          (rw (eq_refl username) refl) verifies current (lawful.canonical-uuid (suc w.calls))
          (rw (eq_refl admin.id) refl) in
      let s = session_row h admin kept r.user_agent ready in
      let after = record ready {
        db = logged_in h admin kept r.user_agent ready;
        calls = suc (suc (suc (suc (suc n))));
      } in
      let done : setup_admin_post h r username password w
          ≡ (ok (cookie "/setup/network" s.id), after) =
        rw (create_admin_lem h username password w) (rw empty (rw moved (rw logged refl))) in
      let only : after.db.users ≡ seen_at (login_time h ready) admin ∷ [] =
        rw (eq_refl admin.id) refl in
      subst (λ x. IsAdmin username password x.0 w x.1) (sym done)
        (record {
          user = seen_at (login_time h ready) admin;
          alone = only;
          named = refl;
          hashed = refl;
          role = refl;
          session = s;
          added = refl;
          owned = refl;
          answer = refl;
          step = at_step;
          closed = λ r' u p. refused_again r' u p after _ only;
        })
