-- ===== src/Auth/Gate/Sound.antt =====
-- What a request that passes the middleware shows.
use bap_web.Prelude.{
  ℕ, suc, String, true, none, some, Option, ◌≡◌, ◌≢◌, ◌⊎◌, ◌=?◌, inl, inr, arith, refl, Bool-cases,
  eq_iff,
}
use bap_web.Model.{User, Session}
use bap_web.Store.Db.{Db, TokenRow}
use bap_web.Store.Access.{has_users, touch_session}
use bap_web.World.{Env, World, Result, ok, err, ◌>>=◌, statement, time_now, attempt, modify}
use bap_web.World.Steps.{bind-eq-ok}
use bap_web.Auth.Request.{
  Request, RequestUser, Security, next, bearer_token, csrf_token, is_state_changing,
}
use bap_web.Auth.Session.{current_user}
use bap_web.Auth.Session.Use.{session_row, Opens, current_user-Opens}
use bap_web.Auth.Token.{current_token_user}
use bap_web.Auth.Token.Use.{token_row, Backs, current_token_user-Backs}
use bap_web.Auth.Gate.{by_token, session_user, by_session, authenticate, require_auth}

-- The request carries a bearer token whose row backs the user at that time.
pub record ByToken (env : Env) (d : Db) (now : ℕ) (r : Request) (u : RequestUser) : Type 0 where
  pub bears : bearer_token r ≢ ""
  pub row : TokenRow
  pub found : token_row env d (bearer_token r) ≡ some row
  pub backs : Backs d.users row.token now u

-- The request carries no bearer token but a session's cookie, and the session's CSRF token if its
-- method changes state.
pub record BySession (sec : Security) (d : Db) (now : ℕ) (r : Request) (u : RequestUser)
    : Type 0 where
  pub bears_none : bearer_token r ≡ ""
  pub id : String
  pub cookie : r.cookie ≡ some id
  pub sess : Session
  pub found : session_row d id ≡ some sess
  pub user : User
  pub opens : Opens sec d now sess user
  pub same : u ≡ session_user user sess
  pub csrf :
      is_state_changing r.method ≡ true → (csrf_token r ≢ "") × (csrf_token r ≡ sess.csrf_token)

by_session-next :
    (sec : Security) (w : World) (r : Request) (user : User) (sess : Session) (u : RequestUser)
    → (by_session sec r (some (user, sess)) w).0 ≡ ok (next u)
    → (u ≡ session_user user sess)
      × (is_state_changing r.method ≡ true → (csrf_token r ≢ "") × (csrf_token r ≡ sess.csrf_token))
unfolding by_session ◌>>=◌ touch_session attempt statement time_now modify
by_session-next sec w r user sess u h = (
  ground arith,
  λ changes. ground (arith, eq_iff (csrf_token r) "", eq_iff (csrf_token r) sess.csrf_token),
)

session_gate :
    (sec : Security) (w : World) (r : Request) (u : RequestUser) (found : Option (User × Session))
    → bearer_token r ≡ ""
    → (current_user sec r.cookie w).0 ≡ ok found
    → (by_session sec r found (current_user sec r.cookie w).1).0 ≡ ok (next u)
    → BySession sec w.db (w.env.clock (suc w.step)) r u
session_gate sec w r u none bare e h = absurd (unfold by_session ◌>>=◌ in ground arith)
session_gate sec w r u (some (user, sess)) bare e h =
    let (id, cookie, found, opens) = current_user-Opens sec w r.cookie user sess e in
    let (same, csrf) = by_session-next sec (current_user sec r.cookie w).1 r user sess u h in
    record {
      bears_none = bare;
      id = id;
      cookie = cookie;
      sess = sess;
      found = found;
      user = user;
      opens = opens;
      same = same;
      csrf = csrf;
    }

token_gate :
    (w : World) (r : Request) (u : RequestUser) (found : Result (Option RequestUser))
    → bearer_token r ≢ ""
    → (current_token_user (bearer_token r) w).0 ≡ found
    → by_token found ≡ next u
    → ByToken w.env w.db (w.env.clock (suc w.step)) r u
token_gate w r u (err e) bears same h = cc
token_gate w r u (ok none) bears same h = cc
token_gate w r u (ok (some v)) bears same h =
    let (row, found, backs) = current_token_user-Backs w (bearer_token r) u (ground arith) in
    record { bears = bears; row = row; found = found; backs = backs }

authenticate-next :
    (sec : Security) (w : World) (r : Request) (u : RequestUser)
    → (authenticate sec r w).0 ≡ ok (next u)
    → ByToken w.env w.db (w.env.clock (suc w.step)) r u
      ⊎ BySession sec w.db (w.env.clock (suc w.step)) r u
unfolding authenticate
authenticate-next sec w r u h = elim (Bool-cases (bearer_token r =? "")) [
  | inl bare ↦
      let (found, e, _, k) =
        bind-eq-ok (current_user sec r.cookie) (by_session sec r) w
          (rw (bare, authenticate) at h) in
      inr (session_gate sec w r u found ((eq_iff _ _).0 bare) e k)
  | inr bears ↦ inl (
      token_gate w r u _ (λ e. ground (arith, eq_iff (bearer_token r) "")) refl
        (unfold ◌>>=◌ in ground arith))
]

-- Whoever passes `requireAuth` came with a bearer token that is valid, or, without one, with a
-- session's cookie that is valid and, if the method changes state, with that session's CSRF token.
-- The user's identity and rights are those of the rows behind it. The times are those at which the
-- middleware reads the clock.
pub require_auth_sound :
    (sec : Security) (w : World) (r : Request) (u : RequestUser)
    → (require_auth sec r w).0 ≡ ok (next u)
    → ByToken w.env w.db (w.env.clock (suc (suc w.step))) r u
      ⊎ BySession sec w.db (w.env.clock (suc (suc w.step))) r u
unfolding require_auth ◌>>=◌ has_users statement
require_auth_sound sec w r u h =
    authenticate-next sec (record w { step = suc w.step }) r u (ground arith)
