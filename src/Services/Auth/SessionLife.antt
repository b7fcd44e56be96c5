-- ===== src/Services/Auth/SessionLife.antt =====
-- The life of a session: login, requests that it validates, its end by time or by logout.
use wol_monkey.Common.{
  ℕ, suc, ◌+◌, String, ◌≡◌, refl, true, false, Option, none, some, [], ◌∷◌, ◌++◌, ◌==◌, any_of_find,
  find, select, update_where,
}
use wol_monkey.Domain.Records.{User, Session}
use wol_monkey.Host.{Host, verified}
use wol_monkey.World.{World, Db}
use wol_monkey.Exec.{ok, err, data_error}
use wol_monkey.Persistence.Machines.{column, optional_inet}
use wol_monkey.Persistence.Machines.Flush.{Kept, optional_inet_known}
use wol_monkey.Persistence.Users
use wol_monkey.Persistence.Sessions
use wol_monkey.Services.Auth.{
  session_lifetime, login, check_password, verify_password, answer, rehash, start_session,
}

abbrev pub seen_at : ℕ → User → User
seen_at at u = record u { last_login_at = some at }

abbrev pub ended : Session → Session
ended s = record s { revoked = true }

module _ (h : Host) where
  abbrev pub session_row : User → Option String → Option String → World → Session
  session_row user ip agent w = record {
    id = h.uuid (suc (suc w.calls));
    user_id = user.id;
    csrf_secret = h.token_hex (suc w.calls) 32;
    ip = ip;
    user_agent = agent;
    expires_at = h.clock w.calls + w.slept + session_lifetime;
    revoked = false;
    created_at = h.clock (suc (suc (suc w.calls))) + w.slept;
  }

  abbrev pub login_time : World → ℕ
  login_time w = h.clock (suc (suc (suc (suc w.calls)))) + w.slept

  -- The tables after a login.
  abbrev pub logged_in : User → Option String → Option String → World → Db
  logged_in user ip agent w = record w.db {
    users = update_where (λ u. u.id == user.id) (seen_at (login_time w)) w.db.users;
    sessions = w.db.sessions ++ session_row user ip agent w ∷ [];
  }

  pub login_lem :
      (user : User) (password : String) (ip kept agent : Option String) (w : World)
      → Kept h ip kept
      → select (λ u. u.username == user.username) w.db.users ≡ user ∷ []
      → h.argon2_verify user.password_hash password ≡ verified
      → h.argon2_needs_rehash user.password_hash ≡ false
      → h.canonical user.id ≡ some user.id
      → find (λ u. u.id == user.id) w.db.users ≡ some user
      → login h user.username password ip agent w ≡ (
        ok (session_row user kept agent w),
        record w { db = logged_in user kept agent w; calls = suc (suc (suc (suc (suc w.calls)))) },
      )
  unfolding login check_password rehash verify_password answer start_session Sessions.create
      Users.update_last_login Users.get_by_username
  login_lem user password ip kept agent w stored named verifies current c f =
      let at_flush : World = record w { calls = suc (suc (suc (suc w.calls))) } in
      rw named (
        rw verifies (
          rw current (
            rw c (
              rw (optional_inet_known h ip kept "ip" at_flush stored)
                (rw (any_of_find (λ u. u.id == user.id) w.db.users user f) refl)))))

  -- For a user who is there under a name that is his alone and a password that verifies against a
  -- hash that needs no renewal, but an address of the client that the column of type INET does not
  -- take: the login raises a data error, and no table has changed.
  pub login_without_address :
      (user : User) (password address : String) (agent : Option String) (w : World)
      → h.inet address ≡ none
      → select (λ u. u.username == user.username) w.db.users ≡ user ∷ []
      → h.argon2_verify user.password_hash password ≡ verified
      → h.argon2_needs_rehash user.password_hash ≡ false
      → h.canonical user.id ≡ some user.id
      → login h user.username password (some address) agent w ≡ (
        err (record { kind = data_error; detail = "ip" }),
        record w { calls = suc (suc (suc (suc w.calls))) },
      )
  unfolding login check_password rehash verify_password answer start_session Sessions.create
      Users.get_by_username optional_inet column
  login_without_address user password address agent w bad named verifies current c =
      rw named (rw verifies (rw current (rw c (rw bad refl))))
