-- ===== src/Api/Web/Gate.antt =====
-- Which pages need a login.
use mathlib.Core.Path.{subst}
use wol_monkey.Common.{
  ℕ, String, ◌≡◌, refl, sym, ap, ◌∙◌, Option, none, some, ◌==◌, Bool-cases, ◌⊎◌, inl, inr,
}
use wol_monkey.Domain.Records.{User, Session}
use wol_monkey.Host.{Host}
use wol_monkey.World.{World}
use wol_monkey.Exec.{Exec, Result, ok, err, pure, catch, ◌>>=◌}
use wol_monkey.Exec.Reads.{Same}
use wol_monkey.Services.Auth.{validate_session}
use wol_monkey.Api.Security.{Request}
use wol_monkey.Api.Web.{Reply, redirect}
use wol_monkey.Api.Web.Reading.{gate}
use wol_monkey.Api.Web.Forms.{
  MachineForm, web_session, with_user, machines_page, machine_new_page, machine_new_post,
  machine_edit_page, machine_edit_post, tokens_page, ssh_setup_page, settings_page, settings_post,
}

-- The pages behind the login, each with what its form or its path holds.
pub data Page : Type 0 where
  machines new_machine tokens ssh_setup settings : Page
  create_machine : MachineForm → Option String → Page
  edit_machine : String → Page
  change_machine : String → MachineForm → Page
  save_settings : String → String → ℕ → String → ℕ → Page

module _ (h : Host) where
  unfoldable pub serve_page : Request → Page → Exec Reply
  serve_page r machines = machines_page h r
  serve_page r new_machine = machine_new_page h r
  serve_page r tokens = tokens_page h r
  serve_page r ssh_setup = ssh_setup_page h r
  serve_page r settings = settings_page h r
  serve_page r (create_machine form from_setup) = machine_new_post h r form from_setup
  serve_page r (edit_machine id) = machine_edit_page h id r
  serve_page r (change_machine id form) = machine_edit_post h id r form
  serve_page r (save_settings i s t a l) = settings_post h r i s t a l

  asks_first :
      (r : Request) (p : Page) → (body : User → Exec Reply) × (serve_page r p ≡ with_user h r body)
  unfolding serve_page machines_page machine_new_page tokens_page ssh_setup_page settings_page
      machine_new_post machine_edit_page machine_edit_post settings_post
  asks_first r machines = (_, refl)
  asks_first r new_machine = (_, refl)
  asks_first r tokens = (_, refl)
  asks_first r ssh_setup = (_, refl)
  asks_first r settings = (_, refl)
  asks_first r (create_machine form from_setup) = (_, refl)
  asks_first r (edit_machine id) = (_, refl)
  asks_first r (change_machine id form) = (_, refl)
  asks_first r (save_settings i s t a l) = (_, refl)

  -- The cookie names a session that is valid now, of that user.
  pub record LoggedIn (r : Request) (w : World) : Type 0 where
    pub id : String
    pub session : Session
    pub user : User
    pub named : r.cookie ≡ some id
    pub valid : (validate_session h id w).0 ≡ ok (session, user)

  after_gate :
      (r : Request) (o : Option String) (w : World)
      → r.cookie ≡ o
      → ((web_session h o w).0 ≡ ok none) ⊎ LoggedIn r w
  unfolding web_session
  after_gate r none w e = inl refl
  after_gate r (some id) w e = elim (Bool-cases (id == "")) [
    | inl bare ↦ inl (rw bare refl)
    | inr there ↦ elim (tried (validate_session h id w).0 (validate_session h id w).1) [
      | inl failed ↦ inl (rw there failed)
      | inr ((s, u), good) ↦
          inr (record { id = id; session = s; user = u; named = e; valid = good })
    ]
  ]
    where
      tried :
          (x : Result (Session × User)) (v : World)
          → ((catch (do (s, u) ← (λ z. (x, v)); pure (some u)) (λ e. pure none) w).0 ≡ ok none)
            ⊎ ((p : Session × User) × (x ≡ ok p))
      tried (ok p) v = inr (p, refl)
      tried (err y) v = inl refl

  turned_away :
      (r : Request) (body : User → Exec Reply) (w : World)
      → (web_session h r.cookie w).0 ≡ ok none
      → ((with_user h r body w).0 ≡ ok (redirect "/login"))
        × ((with_user h r body w).1 ≡ (web_session h r.cookie w).1)
  unfolding with_user
  turned_away r body w e = rw e (refl, refl)

  -- A request to a page behind the login comes from a user with a session that is valid now, or it
  -- is sent to the login page, and nothing but the number of calls made has changed.
  pub serve_page-LoggedIn :
      (r : Request) (p : Page) (w : World)
      → LoggedIn r w
        ⊎ (((serve_page r p w).0 ≡ ok (redirect "/login")) × Same w (serve_page r p w).1)
  serve_page-LoggedIn r p w =
      let (body, same) = asks_first r p in
      elim (after_gate r r.cookie w refl) [
        | inr l ↦ inl l
        | inl e ↦
            let (answer, left) = turned_away r body w e in
            inr (
              ap (λ m. (m w).0) same ∙ answer,
              subst (Same w) (sym (ap (λ m. (m w).1) same ∙ left)) ((gate h r.cookie).at w),
            )
      ]
