-- ===== src/Services/Auth/Laws.antt =====
-- The lives of the admin account, of an API token and of a session.
use wol_monkey.Common.{
  ℕ, suc, ◌+◌, String, ◌<>◌, ◌≡◌, refl, ap, ◌∙◌, true, false, none, some, List, [], ◌∷◌, ◌++◌, ◌==◌,
  ltb, any, any-update_where, update_where-append, select_last, update_where, length, Bool-cases,
  eq_refl, arith, inl, inr, if◌then◌else◌,
}
use wol_monkey.Domain.Records.{User, ApiToken, Dict, Value}
use wol_monkey.Host.{Host, IsLawful}
use wol_monkey.World.{World, Db}
use wol_monkey.Exec.{Result, Error, ok, err, authentication}
use wol_monkey.Persistence.Users
use wol_monkey.Persistence.Tokens
use wol_monkey.Persistence.Tokens.{is_active}
use wol_monkey.Services.Auth.{
  admin_exists, create_admin, hash_password, generate_token, create_api_token, validate_api_token,
  revoke_api_token, usable,
}

abbrev with_tokens : List ApiToken → Db → Db
with_tokens rows db = record db { tokens = rows }

abbrev pub refusal : String → Error
refusal message = record { kind = authentication; detail = message }

module _ (h : Host) where
  -- The account that `create_admin` adds to an empty table.
  abbrev pub admin_row : String → String → World → User
  admin_row username password w = record {
    id = h.uuid (suc w.calls);
    username = username;
    password_hash = h.argon2_hash w.calls password;
    role = "admin";
    created_at = h.clock (suc (suc w.calls)) + w.slept;
    last_login_at = none;
  }

  -- What `create_admin` should answer, given the rows of the table.
  abbrev pub admin_answer : String → String → World → List User → Result User × World
  admin_answer username password w [] = (
    ok (admin_row username password w),
    record w {
      db = record w.db { users = admin_row username password w ∷ [] };
      calls = suc (suc (suc w.calls));
    },
  )
  admin_answer username password w (u ∷ us) = (err (refusal "Admin account already exists"), w)

  admin_from :
      (rows : List User) (username password : String) (w : World)
      → w.db.users ≡ rows
      → create_admin h username password w ≡ admin_answer username password w rows
  unfolding create_admin admin_exists Users.count hash_password Users.create any
  admin_from [] username password w e = rw e refl
  admin_from (u ∷ us) username password w e =
      let there : ltb 0 (length w.db.users) ≡ true = rw e (ground arith) in rw there refl

  -- With no user there, one admin is added whose stored password is the hash of the one given; with
  -- a user there, the call raises an AuthenticationError and nothing has changed.
  pub create_admin_lem :
      (username password : String) (w : World)
      → create_admin h username password w ≡ admin_answer username password w w.db.users
  create_admin_lem username password w = admin_from w.db.users username password w refl

  -- The raw text and the row of the token that `create_api_token` makes.
  abbrev pub raw_token : World → String
  raw_token w = "wm_" <> h.token_hex w.calls 4 <> "_" <> h.token_hex (suc w.calls) 20

  abbrev pub token_row : String → Dict Value → String → World → ApiToken
  token_row name scopes user w = record {
    id = h.uuid (suc (suc w.calls));
    user_id = user;
    machine_id = none;
    name = name;
    token_hash = h.sha256_hex (raw_token w);
    prefix = h.token_hex w.calls 4;
    scopes = scopes;
    last_used_at = none;
    revoked_at = none;
    created_at = h.clock (suc (suc (suc w.calls))) + w.slept;
  }

  -- The world after it.
  abbrev pub with_token : String → Dict Value → String → World → World
  with_token name scopes user w = record w {
    db = with_tokens (w.db.tokens ++ token_row name scopes user w ∷ []) w.db;
    calls = suc (suc (suc (suc w.calls)));
  }

  pub create_api_token_lem :
      (name : String) (scopes : Dict Value) (user_id user : String) (w : World)
      → h.canonical user_id ≡ some user
      → any (λ u. u.id == user) w.db.users ≡ true
      → any (λ t. t.token_hash == h.sha256_hex (raw_token w)) w.db.tokens ≡ false
      → create_api_token h name scopes user_id none w
        ≡ (ok (raw_token w, token_row name scopes user w), with_token name scopes user w)
  unfolding create_api_token generate_token Tokens.create Tokens.machine_key
  create_api_token_lem name scopes user_id user w c k n = rw c (rw k (rw n refl))

  -- Looking up a raw token among rows of which the last alone may have its hash.
  look_up :
      (hash : String) (rows : List ApiToken) (t : ApiToken) (w : World)
      → any (λ x. x.token_hash == hash) rows ≡ false
      → (t.token_hash == hash) ≡ true
      → Tokens.get_by_hash hash (record w { db = with_tokens (rows ++ t ∷ []) w.db }) ≡ (
        ok (if is_active t then some t else none),
        record w { db = with_tokens (rows ++ t ∷ []) w.db },
      )
  unfolding Tokens.get_by_hash
  look_up hash rows t w fresh same =
      rw (select_last (λ x. x.token_hash == hash) is_active rows t fresh)
        (rw same (elim (Bool-cases (is_active t)) [ inl e ↦ rw e refl | inr e ↦ rw e refl ]))

  abbrev revoked_at : ℕ → ApiToken → ApiToken
  revoked_at at t = record t { revoked_at = some at }

  revoke_last :
      (rows : List ApiToken) (t : ApiToken) (w : World)
      → h.canonical t.id ≡ some t.id
      → revoke_api_token h t.id (record w { db = with_tokens (rows ++ t ∷ []) w.db }) ≡ (
        ok tt,
        record w {
          db =
              with_tokens
                (update_where (λ x. x.id == t.id) (revoked_at (h.clock w.calls + w.slept)) rows
                  ++ revoked_at (h.clock w.calls + w.slept) t ∷ [])
                w.db;
          calls = suc w.calls;
        },
      )
  unfolding revoke_api_token Tokens.revoke update_where
  revoke_last rows t w c = rw c (
      rw
        (update_where-append (λ x. x.id == t.id) (revoked_at (h.clock w.calls + w.slept)) rows
          (t ∷ []))
        (rw (eq_refl t.id) refl))

  -- For a user who is there, a lawful host and a new hash: a token for no machine is made, its raw
  -- text is valid at once and names its row; once the token has been revoked the same text is
  -- refused.
  pub token_life :
      IsLawful h
      → (name : String) (scopes : Dict Value) (user_id user : String) (w : World)
      → h.canonical user_id ≡ some user
      → any (λ u. u.id == user) w.db.users ≡ true
      → any (λ t. t.token_hash == h.sha256_hex (raw_token w)) w.db.tokens ≡ false
      → (create_api_token h name scopes user_id none w
          ≡ (ok (raw_token w, token_row name scopes user w), with_token name scopes user w))
        × ((validate_api_token h (raw_token w) (with_token name scopes user w)).0
            ≡ ok (token_row name scopes user w))
        × ((revoke_api_token h (token_row name scopes user w).id (with_token name scopes user w)).0
            ≡ ok tt)
        × ((validate_api_token h
              (raw_token w)
              (revoke_api_token h
                (token_row name scopes user w).id
                (with_token name scopes user w)).1).0
            ≡ err (refusal "Invalid API token"))
  unfolding validate_api_token usable Tokens.touch_last_used
  token_life lawful name scopes user_id user w c k n =
      let t : ApiToken = token_row name scopes user w in
      let valid = lawful.canonical-uuid (suc (suc w.calls)) in
      let later : World = with_token name scopes user w in
      let same = eq_refl (h.sha256_hex (raw_token w)) in
      let gone = revoke_last w.db.tokens t later valid in
      let at = h.clock later.calls + later.slept in
      let still_new =
        any-update_where (λ x. x.token_hash == h.sha256_hex (raw_token w)) (λ x. x.id == t.id)
          (revoked_at at) w.db.tokens (λ x. refl)
        ∙ n in
      (
        create_api_token_lem name scopes user_id user w c k n,
        rw (look_up (h.sha256_hex (raw_token w)) w.db.tokens t later n same) (rw valid refl),
        ap (λ x. x.0) gone,
        rw gone (
            rw
              (look_up (h.sha256_hex (raw_token w))
                (update_where (λ x. x.id == t.id) (revoked_at at) w.db.tokens) (revoked_at at t)
                (record later { calls = suc later.calls }) still_new same)
              refl),
      )
