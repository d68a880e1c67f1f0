-- ===== src/Auth/Session.antt =====
-- Browser sessions of internal/app/app.go: login, logout, and the user behind a cookie.
pub mod Use
pub mod Setup
use Prim.Native.String
use bap_web.Prelude.{
  ℕ, ◌+◌, ◌-◌, String, Bool, true, ◌||◌, Option, none, some, ltb, ◌=?◌, if◌then◌else◌,
}
use bap_web.Errors.{message}
use bap_web.Model.{User, Session}
use bap_web.Store.Db.{AuditEvent}
use bap_web.Store.Access.{
  has_users, create_user, user_by_username, user_by_id, create_session, session_by_id,
  delete_session, audit,
}
use bap_web.World.{M, Result, ok, err, pure, try, ◌>>=◌, ◌>>◌, attempt, quiet, time_now, random_hex}
use bap_web.Auth.Request.{Origin, Security, Gate, redirect, reply}
use bap_web.Text.{trim_space, byte_len}

-- `now.After(sess.ExpiresAt) || now.Sub(sess.CreatedAt) > SessionAbsoluteTimeout`
pub is_over : Security → ℕ → Session → Bool
is_over sec now sess =
    ltb sess.expires_at now || ltb sec.session_absolute_timeout (now - sess.created_at)

abbrev with_user : Session → Option User → Option (User × Session)
with_user sess none = none
with_user sess (some u) = some (u, sess)

-- The rest of `currentUser`, once the session's row is read. A session that is over is deleted.
unfoldable pub admit : Security → Option Session → M (Option (User × Session))
unfolding is_over
admit sec none = pure none
admit sec (some sess) = do
  now ← time_now
  if is_over sec now sess
      then (do attempt (delete_session sess.id); pure none)
      else do u ← quiet (user_by_id sess.user_id); pure (with_user sess u)

-- `currentUser`: `none` where it returns false.
unfoldable pub current_user : Security → Option String → M (Option (User × Session))
unfolding admit
current_user sec none = pure none
current_user sec (some id) =
    if id =? "" then pure none else do found ← quiet (session_by_id id); admit sec found

-- What the bcrypt library does with passwords: it makes a hash of one, or fails, and tells whether a
-- password fits a hash.
pub record Bcrypt : Type 0 where
  pub generate : String → Result String
  pub compare : String → String → Bool

abbrev verified : Bcrypt → String → Option User → Option User
verified b password none = none
verified b password (some u) = if b.compare u.password_hash password then some u else none

abbrev event : Origin → String → String → String → String → String → AuditEvent
event o actor action target outcome text = record {
  actor = actor;
  source = o.source;
  action = action;
  target = target;
  outcome = outcome;
  request_id = o.request_id;
  message = text;
  created_at = 0;
}

abbrev pub logged_in : Origin → User → Result (Unit {0}) → M Gate
logged_in o u (err e) = pure (reply 500 (message e))
logged_in o u (ok _) = do
  attempt (audit (event o u.username "login" (String.◌++◌ "user:" u.id) "success" ""))
  pure (redirect "/")

abbrev pub open_session : Security → Origin → String → Option User → M Gate
open_session sec o username none = do
  attempt (
      audit
        (event o username "login" (String.◌++◌ "user:" username) "failure" "invalid credentials"))
  pure (reply 401 "invalid credentials")
open_session sec o username (some u) = do
  now ← time_now
  id ← random_hex 32
  csrf ← random_hex 32
  let sess : Session = record {
    id = id;
    user_id = u.id;
    csrf_token = csrf;
    created_at = now;
    last_seen_at = now;
    expires_at = now + sec.session_idle_timeout;
  }
  created ← try (create_session sess)
  logged_in o u created

-- `loginPost`; a failed query, an unknown user and a wrong password are answered alike.
unfoldable pub login_post : Bcrypt → Security → Origin → String → String → M Gate
login_post b sec o name password = do
  let username = trim_space name
  found ← quiet (user_by_username username)
  open_session sec o username (verified b password found)

-- `logoutPost`
unfoldable pub logout_post : Option String → M Gate
logout_post none = pure (redirect "/login")
logout_post (some id) = do attempt (delete_session id); pure (redirect "/login")

abbrev pub admin_added : Origin → String → String → Result (Unit {0}) → M Gate
admin_added o username id (err e) = pure (reply 500 (message e))
admin_added o username id (ok _) = do
  attempt (
      audit
        (event o username "setup_admin" (String.◌++◌ "user:" id) "success" "initial admin created"))
  pure (redirect "/login")

abbrev pub add_admin : Origin → String → Result String → M Gate
add_admin o username (err e) = pure (reply 500 (message e))
add_admin o username (ok hash) = do
  id ← random_hex 16
  now ← time_now
  let u : User = record {
    id = id;
    username = username;
    password_hash = hash;
    is_admin = true;
    created_at = now;
  }
  created ← try (create_user u)
  admin_added o username id created

abbrev pub setup_form : Bcrypt → Origin → String → String → Result Bool → M Gate
setup_form b o name password (err e) = pure (reply 500 (message e))
setup_form b o name password (ok has) =
    if has
    then pure (reply 403 "setup already complete")
    else if trim_space name =? "" || ltb (byte_len password) 12
    then pure (reply 400 "username and password of at least 12 characters required")
    else add_admin o (trim_space name) (b.generate password)

-- `setupPost`: the first user, who is an admin, is made once.
unfoldable pub setup_post : Bcrypt → Origin → String → String → M Gate
setup_post b o name password = do has ← try has_users; setup_form b o name password has
