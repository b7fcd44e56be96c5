-- ===== src/Tests/Requests.antt =====
-- A request with a session and a CSRF token.
use wol_monkey.Common.{String, ◌≡◌, refl, some, find}
use wol_monkey.Domain.Records.{Session}
use wol_monkey.World.{World}
use wol_monkey.Exec.{ok}
use wol_monkey.Persistence.Users as Users
use wol_monkey.Persistence.Sessions as Sessions
use wol_monkey.Services.Auth.{validate_session, live, with_user}
use wol_monkey.Api.Security.{
  csrf_token, validate_csrf_token, from_cookie, get_current_session_and_user, checked, require_csrf,
  get_csrf_protected_user,
}
use wol_monkey.Api.Security.Laws.{NamesSession, csrf_protected_user_checked}
use wol_monkey.Tests.Fixtures.{alice, signing_host, in_session, form}

abbrev after_check : World
after_check = (get_csrf_protected_user signing_host form in_session).1

form_passes : get_csrf_protected_user signing_host form in_session ≡ (ok alice, after_check)
unfolding get_csrf_protected_user get_current_session_and_user from_cookie require_csrf checked
    validate_csrf_token csrf_token validate_session live with_user find Users.get_by_id
    Sessions.get_by_id
form_passes = refl

csrf_protected_user_checked_example :
    (id : String) × (s : Session) × (v : World) × (form.cookie ≡ some id)
    × (validate_session signing_host id in_session ≡ (ok (s, alice), v))
    × NamesSession signing_host form s v
csrf_protected_user_checked_example =
    csrf_protected_user_checked signing_host form alice in_session after_check form_passes
