-- ===== src/Api/Security/Laws.antt =====
-- What a request must carry to get past the CSRF check.
use mathlib.Core.Bool.{false≢true}
use wol_monkey.Common.{
  suc, ◌+◌, String, ◌≡◌, refl, sym, ap, ◌∙◌, Bool, true, false, Option, none, some, ◌==◌, eq_iff,
  Bool-cases, arith, inl, inr,
}
use wol_monkey.Domain.Records.{User, Session}
use wol_monkey.Host.{Host}
use wol_monkey.World.{World}
use wol_monkey.Exec.{Result, Error, ok, err, catch, raise, pure, http, ◌>>=◌, ◌>>◌}
use wol_monkey.Services.Auth.{validate_session}
use wol_monkey.Api.Security.{
  Request, csrf_token, same_claims, validate_csrf_token, from_cookie, get_current_session_and_user,
  checked, require_csrf, get_csrf_protected_user,
}

abbrev returned : {A : Type 0} → Result A → Bool
returned (ok a) = true
returned (err e) = false

module _ (h : Host) where
  -- The token, loaded at the time at which the session has been found, names it and its secret.
  abbrev pub NamesSession : Request → Session → World → Type 0
  NamesSession r s w =
      h.csrf_loads (h.clock w.calls + w.slept) (csrf_token r) ≡ some (s.id, s.csrf_secret)

  claims_same :
      (id secret : String) (o : Option (String × String))
      → same_claims h id secret o ≡ true
      → o ≡ some (id, secret)
  claims_same id secret none e = cc
  claims_same id secret (some (sid, sec)) e =
      let same_id : sid ≡ id = ground (arith, eq_iff sid id) in
      let same_secret : sec ≡ secret = ground (arith, eq_iff sec secret) in
      rw (same_id, same_secret) refl

  abbrev forbidden : Error
  forbidden = record { kind = http 403; detail = "CSRF validation failed" }

  abbrev claims : Request → Session → World → Bool
  claims r s w =
      same_claims h s.id s.csrf_secret (h.csrf_loads (h.clock w.calls + w.slept) (csrf_token r))

  required :
      (r : Request) (s : Session) (u v : User) (w w' : World)
      → (do require_csrf h r s; pure v) w ≡ (ok u, w')
      → (v ≡ u) × NamesSession r s w
  unfolding require_csrf checked validate_csrf_token
  required r s u v w w' e = elim (Bool-cases (csrf_token r == "")) [
    | inl bare ↦
        let stopped : (do require_csrf h r s; pure v) w ≡ (err forbidden, w) = rw bare refl in
        absurd (false≢true (ap (λ x. returned x.0) (sym stopped ∙ e)))
    | inr there ↦ elim (Bool-cases (claims r s w)) [
      | inl fine ↦
          let passes : (do require_csrf h r s; pure v) w
              ≡ (ok v, record w { calls = suc w.calls }) =
            rw there (rw fine refl) in
          let given : Path (Result User) (ok v) (ok u) = ap (λ x. x.0) (sym passes ∙ e) in
          (cc, claims_same s.id s.csrf_secret _ fine)
      | inr bad ↦
          let stopped : (do require_csrf h r s; pure v) w
              ≡ (err forbidden, record w { calls = suc w.calls }) =
            rw there (rw bad refl) in
          absurd (false≢true (ap (λ x. returned x.0) (sym stopped ∙ e)))
    ]
  ]

  after_validation :
      (r : Request) (u : User) (x : Result (Session × User)) (w w' : World)
      → (catch (λ v. (x, w)) (λ e. raise (http 401) "Not authenticated") >>= λ p. (do
        require_csrf h r p.0
        pure p.1))
          w
        ≡ (ok u, w')
      → (s : Session) × (x ≡ ok (s, u)) × NamesSession r s w
  after_validation r u (err y) w w' e = absurd (false≢true (ap (λ z. returned z.0) e))
  after_validation r u (ok (s, v)) w w' e =
      let (same, named) = required r s u v w w' e in (s, ap (λ z. ok (s, z)) same, named)

  from_request :
      (r : Request) (u : User) (o : Option String) (w w' : World)
      → r.cookie ≡ o
      → get_csrf_protected_user h r w ≡ (ok u, w')
      → (id : String) × (s : Session) × (v : World) × (o ≡ some id)
        × (validate_session h id w ≡ (ok (s, u), v))
        × NamesSession r s v
  unfolding get_csrf_protected_user get_current_session_and_user from_cookie
  from_request r u none w w' c e =
      let stopped : get_csrf_protected_user h r w
          ≡ (err (record { kind = http 401; detail = "Not authenticated" }), w) =
        rw c refl in
      absurd (false≢true (ap (λ x. returned x.0) (sym stopped ∙ e)))
  from_request r u (some id) w w' c e =
      let (x, v) = validate_session h id w in
      let opened : get_csrf_protected_user h r w
          ≡ (catch (λ z. (x, v)) (λ e. raise (http 401) "Not authenticated") >>= λ p. (do
            require_csrf h r p.0
            pure p.1))
              v =
        rw c refl in
      let (s, valid, named) = after_validation r u x v w' (sym opened ∙ e) in
      (id, s, v, refl, ap (λ z. (z, v)) valid, named)

  -- A request gets past the CSRF check, as a user, only if its cookie names a session that is valid
  -- now and belongs to that user, and the token in its header or form, loaded then, holds the
  -- session's id and its CSRF secret.
  pub csrf_protected_user_checked :
      (r : Request) (u : User) (w w' : World)
      → get_csrf_protected_user h r w ≡ (ok u, w')
      → (id : String) × (s : Session) × (v : World) × (r.cookie ≡ some id)
        × (validate_session h id w ≡ (ok (s, u), v))
        × NamesSession r s v
  csrf_protected_user_checked r u w w' e = from_request r u r.cookie w w' refl e
