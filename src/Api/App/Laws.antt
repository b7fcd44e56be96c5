-- ===== src/Api/App/Laws.antt =====
-- The headers of every response that comes through the middleware.
use wol_monkey.Common.{String, ◌≡◌, false, Option, none, some, [], ◌∷◌, ◌==◌}
use wol_monkey.Common.Dict.{lookup}
use wol_monkey.Domain.Records.{Dict}
use wol_monkey.World.{World}
use wol_monkey.Exec.{Exec}
use wol_monkey.Api.App.{Response}

abbrev pub or_else : Option String → Option String → Option String
or_else none o = o
or_else (some v) o = some v

abbrev Distinct : Dict String → Type 0
Distinct [] = Unit
Distinct ((name, value) ∷ rest) = (lookup name rest ≡ none) × Distinct rest

-- The response with the five security headers, each with its text, and the others as they were.
pub record IsSecured (r s : Response) : Type 0 where
  pub status : s.status_code ≡ r.status_code
  pub body : s.body ≡ r.body
  pub content_type_options : lookup "x-content-type-options" s.headers ≡ some "nosniff"
  pub frame_options : lookup "x-frame-options" s.headers ≡ some "DENY"
  pub referrer_policy : lookup "referrer-policy" s.headers ≡ some "strict-origin-when-cross-origin"
  pub permissions_policy :
      lookup "permissions-policy" s.headers ≡ some "geolocation=(), camera=(), microphone=()"
  pub content_security_policy :
      lookup "content-security-policy" s.headers
      ≡ some
          "default-src 'self'; script-src 'self' 'unsafe-inline'; style-src 'self' 'unsafe-inline'; img-src 'self' data:; font-src 'self'; connect-src 'self'; frame-ancestors 'none'"
  pub others :
      (name : String)
      → (name == "x-content-type-options") ≡ false
      → (name == "x-frame-options") ≡ false
      → (name == "referrer-policy") ≡ false
      → (name == "permissions-policy") ≡ false
      → (name == "content-security-policy") ≡ false
      → lookup name s.headers ≡ lookup name r.headers
