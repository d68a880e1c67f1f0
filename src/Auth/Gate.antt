-- ===== src/Auth/Gate.antt =====
-- The middleware of internal/app/app.go that stands before every handler but login and the
-- documents: authentication, the CSRF check, and the check for admin rights.
pub mod Sound
use bap_web.Prelude.{◌+◌, Bool, false, ◌||◌, ◌&&◌, not, Option, none, some, ◌=?◌, if◌then◌else◌}
use bap_web.Errors.{message}
use bap_web.Model.{User, Session}
use bap_web.Store.Access.{has_users, touch_session}
use bap_web.World.{M, ok, err, pure, try, ◌>>=◌, ◌>>◌, attempt, time_now, Result}
use bap_web.Auth.Request.{
  RequestUser, Request, Security, Gate, next, redirect, reply, bearer_token, is_state_changing,
  is_api, csrf_token,
}
use bap_web.Auth.Session.{current_user}
use bap_web.Auth.Token.{current_token_user}

abbrev by_token : Result (Option RequestUser) → Gate
by_token (err e) = reply 500 (message e)
by_token (ok none) = reply 401 "invalid bearer token"
by_token (ok (some u)) = next u

-- Whether a request that changes state lacks the session's CSRF token.
pub lacks_csrf : Request → Session → Bool
lacks_csrf r sess =
    is_state_changing r.method && (csrf_token r =? "" || not (csrf_token r =? sess.csrf_token))

abbrev session_user : User → Session → RequestUser
session_user u sess = record {
  id = u.id;
  username = u.username;
  is_admin = u.is_admin;
  csrf = sess.csrf_token;
  is_token = false;
}

unfoldable pub by_session : Security → Request → Option (User × Session) → M Gate
unfolding lacks_csrf
by_session sec r none =
    pure (if is_api r then reply 401 "authentication required" else redirect "/login")
by_session sec r (some (u, sess)) =
    if lacks_csrf r sess then pure (reply 403 "invalid csrf token") else do
      now ← time_now
      attempt (touch_session sess.id (now + sec.session_idle_timeout))
      pure (next (session_user u sess))

unfoldable pub authenticate : Security → Request → M Gate
unfolding by_session
authenticate sec r =
    if bearer_token r =? ""
    then (do found ← current_user sec r.cookie; by_session sec r found)
    else do u ← try (current_token_user (bearer_token r)); pure (by_token u)

abbrev pub after_setup : Security → Request → Result Bool → M Gate
after_setup sec r (err e) = pure (reply 500 (message e))
after_setup sec r (ok has) = if has then authenticate sec r else pure (redirect "/setup")

-- `requireAuth`: what happens to the request before the next handler.
unfoldable pub require_auth : Security → Request → M Gate
unfolding authenticate
require_auth sec r = do has ← try has_users; after_setup sec r has

-- `requireAdmin`, behind `requireAuth`.
pub require_admin : Gate → Gate
require_admin (next u) = if u.is_admin then next u else reply 403 "admin privileges required"
require_admin other = other
