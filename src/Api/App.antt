-- ===== src/Api/App.antt =====
-- app/main.py: the middleware that sets the security headers, and the error handlers. Header names
-- stand in lower case, as Starlette keeps them; the framework's wiring is not modelled.
pub mod Laws
use wol_monkey.Common.{ℕ, String, ◌<>◌, Bool, List, [], ◌∷◌, if◌then◌else◌}
use wol_monkey.Common.Dict.{insert}
use wol_monkey.Common.Text.{starts_with}
use wol_monkey.Domain.Records.{Dict}
use wol_monkey.Exec.{Exec, pure, ◌>>=◌}

pub data Body : Type 0 where
  -- A template's name, and the status code and detail that it shows.
  template : String → ℕ → String → Body
  content : String → Body

pub record Response : Type 0 where
  pub status_code : ℕ
  pub headers : Dict String
  pub body : Body

abbrev pub content_security_policy : String
content_security_policy =
    "default-src 'self'; " <> "script-src 'self' 'unsafe-inline'; "
    <> "style-src 'self' 'unsafe-inline'; " <> "img-src 'self' data:; " <> "font-src 'self'; "
    <> "connect-src 'self'; " <> "frame-ancestors 'none'"

-- The headers in the order in which they are set.
abbrev pub security_headers : Dict String
security_headers =
    ("x-content-type-options", "nosniff")
    ∷ ("x-frame-options", "DENY")
    ∷ ("referrer-policy", "strict-origin-when-cross-origin")
    ∷ ("permissions-policy", "geolocation=(), camera=(), microphone=()")
    ∷ ("content-security-policy", content_security_policy)
    ∷ []

unfoldable pub set_headers : Dict String → Dict String → Dict String
set_headers [] headers = headers
set_headers ((name, value) ∷ rest) headers = set_headers rest (insert name value headers)

-- `SecurityHeadersMiddleware.dispatch` around the rest of the application.
unfoldable pub dispatch : Exec Response → Exec Response
dispatch call_next = do
  response ← call_next
  pure (record response { headers = set_headers security_headers response.headers })

-- The response to an exception that no handler has caught.
unfoldable pub internal_error_handler : Response
internal_error_handler = record {
  status_code = 500;
  headers = [];
  body = template "error.html" 500 "An unexpected error occurred.";
}

-- The response to a status 404, by the path; the exception's own detail is not used.
unfoldable pub not_found_handler : String → Response
not_found_handler path =
    if starts_with "/api/" path
    then record {
      status_code = 404;
      headers = ("content-type", "application/json") ∷ [];
      body = content "{\"detail\":\"Not found\"}";
    }
    else record {
      status_code = 404;
      headers = [];
      body = template "error.html" 404 "Page not found.";
    }
