-- ===== src/Api/Web/Wizard.antt =====
-- The wizard's pages and the wizard's endpoints of the API, before and after its completion.
use wol_monkey.Common.{
  ℕ, ◌≤◌, String, ◌<>◌, ◌≡◌, refl, sym, ◌∙◌, Bool, true, false, Option, none, some, arith, is_some,
  ltb, Option-cases, Bool-cases, inl, inr, ◌&&◌, leb, if◌then◌else◌,
}
use wol_monkey.Domain.Records.{SetupState}
use wol_monkey.Host.{Host}
use wol_monkey.World.{World}
use wol_monkey.Exec.{Error, Result, ok, err, http, ◌>>=◌, pure}
use wol_monkey.Persistence.Setup
use wol_monkey.Persistence.Setup.{get_or_create}
use wol_monkey.Services.Setup.{
  wizard_steps, index, is_complete, get_state, advance, advanced, next_step,
}
use wol_monkey.Services.Setup.Laws.{shown, IsSound}
use wol_monkey.Api.Auth.{fits}
use wol_monkey.Api.Setup.{require_incomplete, setup_admin, setup_network, setup_complete}
use wol_monkey.Api.Web.{
  Reply, redirect, page, setup_page, wizard_page, step_page, compare_steps, setup_welcome_post,
}

module _ (h : Host) where
  -- The answer for a step, when the wizard shows `current`.
  answer : String → String → Option ℕ → Option ℕ → Result Reply
  answer step current none j = ok (redirect ("/setup/" <> current))
  answer step current (some i) none = err (record { kind = value_kind; detail = "not in list" })
    where
      value_kind : wol_monkey.Exec.Kind
      value_kind = wol_monkey.Exec.Kind.value_error
  answer step current (some i) (some j) =
      ok (if ltb j i then redirect ("/setup/" <> current) else page step 200)

  step_page_lem :
      (step current : String) (o j : Option ℕ) (w : World)
      → index wizard_steps current ≡ j
      → (step_page h step current o w).0 ≡ answer step current o j
  unfolding step_page compare_steps answer
  step_page_lem step current none j w e = refl
  step_page_lem step current (some i) none w e = rw (e, compare_steps)
  step_page_lem step current (some i) (some j) w e = rw (e, compare_steps)

  page_of_row :
      (step : String) (o : Option SetupState) (w : World)
      → w.db.setup ≡ o
      → (setup_page h step w).0 ≡ (
          if (shown w).completed
          then ok (redirect "/machines")
          else answer step
              (shown w).current_step
              (index wizard_steps step)
              (index wizard_steps (shown w).current_step))
  unfolding setup_page is_complete get_state Setup.get
  page_of_row step none w e =
      rw (e, setup_page) (step_page_lem step "welcome" (index wizard_steps step) _ _ refl)
  page_of_row step (some r) w e = elim (Bool-cases r.completed) [
    | inl c ↦ rw (e, setup_page) (rw (c, wizard_page) refl)
    | inr c ↦
        rw (e, setup_page)
          (rw (c, wizard_page)
            (step_page_lem step r.current_step (index wizard_steps step) _ _ refl))
  ]

  answer_total :
      (step current : String) (o j : Option ℕ)
      → is_some j ≡ true
      → (p : Reply) × (answer step current o j ≡ ok p)
  unfolding answer
  answer_total step current none j k = (_, refl)
  answer_total step current (some i) none k = cc
  answer_total step current (some i) (some j) k = (_, refl)

  if_total :
      (b : Bool) (p : Reply) (r : Result Reply)
      → (q : Reply) × (r ≡ ok q)
      → (q : Reply) × ((if b then ok p else r) ≡ ok q)
  if_total true p r x = (p, refl)
  if_total false p r x = x

  -- While the wizard shows one of its steps, its pages answer for every text in the URL.
  pub setup_page_total :
      (step : String) (w : World)
      → IsSound (shown w)
      → (p : Reply) × ((setup_page h step w).0 ≡ ok p)
  setup_page_total step w s = rw (page_of_row step w.db.setup w refl) (
      if_total (shown w).completed (redirect "/machines") _
        (answer_total step (shown w).current_step (index wizard_steps step) _ s.known))

  answer_in_order :
      (step current t : String) (n : ℕ) (o : Option ℕ) (j : Option ℕ)
      → answer step current o j ≡ ok (page t n)
      → (t ≡ step) × (a : ℕ) × (b : ℕ) × (o ≡ some a) × (j ≡ some b) × (a ≤ b)
  unfolding answer
  answer_in_order step current t n none j e = cc
  answer_in_order step current t n (some a) none e = cc
  answer_in_order step current t n (some a) (some b) e =
      (ground arith, a, b, refl, refl, ground arith)

  if_page :
      (b : Bool) (r : Result Reply) (t : String) (n : ℕ)
      → (if b then ok (redirect "/machines") else r) ≡ ok (page t n)
      → (b ≡ false) × (r ≡ ok (page t n))
  if_page true r t n e = cc
  if_page false r t n e = (refl, e)

  -- A page of the wizard is only given for the step of the URL, while the wizard is not completed,
  -- and for a step that is the current one or comes before it in the wizard's order.
  pub setup_page_in_order :
      (step t : String) (n : ℕ) (w : World)
      → (setup_page h step w).0 ≡ ok (page t n)
      → ((shown w).completed ≡ false)
        × (t ≡ step)
        × (a : ℕ) × (b : ℕ) × (index wizard_steps step ≡ some a)
        × (index wizard_steps (shown w).current_step ≡ some b)
        × (a ≤ b)
  setup_page_in_order step t n w e =
      let (open_, shows) =
        if_page (shown w).completed _ t n (sym (page_of_row step w.db.setup w refl) ∙ e) in
      let (same, a, b, at_a, at_b, le) =
        answer_in_order step (shown w).current_step t n (index wizard_steps step) _ shows in
      (open_, same, a, b, at_a, at_b, le)

  -- The form of the wizard's first step is not guarded: whoever posts it, and also after the wizard
  -- was completed, the wizard is no longer completed and shows the step after the first.
  pub setup_welcome_reopens :
      (w : World)
      → ((shown (setup_welcome_post h w).1).completed ≡ false)
        × ((shown (setup_welcome_post h w).1).current_step ≡ "admin_account")
        × ((setup_welcome_post h w).0 ≡ ok (redirect "/setup/admin_account"))
  unfolding setup_welcome_post advance advanced next_step index Setup.get Setup.update
  setup_welcome_reopens w = elim (Option-cases w.db.setup) [
    | inl e ↦ rw (e, setup_welcome_post) (refl, refl, refl)
    | inr (r, e) ↦ rw (e, setup_welcome_post) (refl, refl, refl)
  ]

  closed_row :
      (r : SetupState) (w : World)
      → w.db.setup ≡ some r
      → r.completed ≡ true
      → require_incomplete h w
        ≡ (err (record { kind = http 410; detail = "Setup already completed" }), w)
  unfolding require_incomplete is_complete Setup.get
  closed_row r w e c = simp (e, c)

  abbrev gone : Error
  gone = record { kind = http 410; detail = "Setup already completed" }

  -- Once the wizard is completed, each valid request to the API's three endpoints that write is
  -- answered with 410, and changes nothing at all.
  pub setup_api_closed :
      (r : SetupState) (w : World) (username password interface strategy : String) (timeout : ℕ)
      → w.db.setup ≡ some r
      → r.completed ≡ true
      → (fits 3 150 username && fits 12 1024 password) ≡ true
      → (fits 0 32 interface && fits 0 20 strategy) ≡ true
      → (leb 10 timeout && leb timeout 600) ≡ true
      → (setup_admin h username password w ≡ (err gone, w))
        × (setup_network h interface strategy timeout w ≡ (err gone, w))
        × (setup_complete h w ≡ (err gone, w))
  unfolding setup_admin setup_network setup_complete
  setup_api_closed r w username password interface strategy timeout e c u n t =
      let closed = closed_row r w e c in
      (
        rw (u, setup_admin) (rw (closed, setup_admin) refl),
        rw (n, setup_network) (rw (t, setup_network) (rw (closed, setup_network) refl)),
        rw (closed, setup_complete) refl,
      )
