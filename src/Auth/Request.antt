-- ===== src/Auth/Request.antt =====
-- What the middleware of internal/app/app.go reads of a request and hands on.
use bap_web.Prelude.{ℕ, String, Bool, ◌&&◌, not, Option, none, some, ◌=?◌, if◌then◌else◌}
use bap_web.Text.{trim_space, cut_space, to_lower, has_prefix}

-- `requestUser`
pub record RequestUser : Type 0 where
  pub id : String
  pub username : String
  pub is_admin : Bool
  pub csrf : String
  pub is_token : Bool

-- The header, cookie and form values that authentication looks at; a missing header is "".
pub record Request : Type 0 where
  pub method : String
  pub path : String
  pub authorization : String
  pub cookie : Option String  -- bap_web_session
  pub csrf_header : String
  pub csrf_form : String

-- Where a request comes from, for the audit log: `sourceIP` and `reqID`.
pub record Origin : Type 0 where
  pub source : String
  pub request_id : String

-- SecurityConfig of internal/config/config.go, in nanoseconds.
pub record Security : Type 0 where
  pub session_idle_timeout : ℕ
  pub session_absolute_timeout : ℕ

-- What the middleware does with a request: the next handler runs as a user, or it answers itself.
pub data Gate : Type 0 where
  next : RequestUser → Gate
  redirect : String → Gate
  reply : ℕ → String → Gate

abbrev bearer_of : Option (String × String) → String
bearer_of none = ""
bearer_of (some (typ, value)) = if to_lower typ =? "bearer" then trim_space value else ""

-- `bearerToken`
unfoldable pub bearer_token : Request → String
bearer_token r =
    let auth = trim_space r.authorization in if auth =? "" then "" else bearer_of (cut_space auth)

unfoldable pub is_state_changing : String → Bool
is_state_changing method =
    not (method =? "GET") && not (method =? "HEAD") && not (method =? "OPTIONS")

unfoldable pub is_api : Request → Bool
is_api r = has_prefix r.path "/api/"

-- The CSRF token of the header, or else of the form.
unfoldable pub csrf_token : Request → String
csrf_token r = if r.csrf_header =? "" then r.csrf_form else r.csrf_header
