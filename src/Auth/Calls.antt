-- ===== src/Auth/Calls.antt =====
-- The calls that reach the server, one after another, and what they leave of a revoked token.
use bap_web.Prelude.{String, Bool, Option, none, some, List, [], ◌∷◌}
use bap_web.Model.{User, Session, ApiToken}
use bap_web.World.{M, Result, ok, err, pure, try, ◌>>◌}
use bap_web.World.Keeps.{Keeps, Keeps-bind}
use bap_web.Auth.Request.{RequestUser, Request, Origin, Security}
use bap_web.Auth.Session.{
  Bcrypt, current_user, admit, open_session, login_post, logout_post, add_admin, setup_form,
  setup_post, logged_in, admin_added,
}
use bap_web.Auth.Token.{
  ApiTokenCreateRequest, token_user, current_token_user, token_owner, entitled_owner, token_expiry,
  issue, create_token, revoke_token,
}
use bap_web.Auth.Gate.{require_auth, authenticate, by_session, after_setup}
use bap_web.Auth.Dead.{Dead, dead_rules}
use bap_web.Auth.Elsewhere.{operate-Dead, create_machine-Dead, call_kernel-Dead}
use bap_web.Config.{Config}
use bap_web.Lifecycle.Vms.Calls.{VmCall, operate}
use bap_web.Lifecycle.Create.{CreateRequest, create_machine}
use bap_web.Kernels.Statuses.{KernelCall, call_kernel}

module _ (secret : String) where
  token_user-Dead : (t : Option ApiToken) → Keeps (Dead secret) (token_user t)
  unfolding token_user
  token_user-Dead none = search dead_rules depth 14
  token_user-Dead (some t) = search dead_rules depth 14

  current_token_user-Dead : (s : String) → Keeps (Dead secret) (current_token_user s)
  unfolding current_token_user
  current_token_user-Dead s = search (dead_rules, token_user-Dead) depth 14

  admit-Dead : (sec : Security) (s : Option Session) → Keeps (Dead secret) (admit sec s)
  unfolding admit
  admit-Dead sec none = search dead_rules depth 14
  admit-Dead sec (some sess) = search dead_rules depth 14

  current_user-Dead :
      (sec : Security) (c : Option String) → Keeps (Dead secret) (current_user sec c)
  unfolding current_user
  current_user-Dead sec none = search dead_rules depth 14
  current_user-Dead sec (some id) = search (dead_rules, admit-Dead) depth 14

  by_session-Dead :
      (sec : Security) (r : Request) (found : Option (User × Session))
      → Keeps (Dead secret) (by_session sec r found)
  unfolding by_session
  by_session-Dead sec r none = search dead_rules depth 14
  by_session-Dead sec r (some (u, sess)) = search dead_rules depth 14

  authenticate-Dead : (sec : Security) (r : Request) → Keeps (Dead secret) (authenticate sec r)
  unfolding authenticate
  authenticate-Dead sec r =
      search (dead_rules, current_user-Dead, by_session-Dead, current_token_user-Dead) depth 14

  after_setup-Dead :
      (sec : Security) (r : Request) (has : Result Bool)
      → Keeps (Dead secret) (after_setup sec r has)
  after_setup-Dead sec r (err e) = search dead_rules depth 14
  after_setup-Dead sec r (ok has) = search (dead_rules, authenticate-Dead) depth 14

  require_auth-Dead : (sec : Security) (r : Request) → Keeps (Dead secret) (require_auth sec r)
  unfolding require_auth
  require_auth-Dead sec r = search (dead_rules, after_setup-Dead) depth 14

  entitled_owner-Dead :
      (actor : RequestUser) (req : ApiTokenCreateRequest)
      → Keeps (Dead secret) (entitled_owner actor req)
  unfolding entitled_owner token_owner
  entitled_owner-Dead actor req = search dead_rules depth 14

  create_token-Dead :
      (actor : RequestUser) (req : ApiTokenCreateRequest)
      → Keeps (Dead secret) (create_token actor req)
  unfolding create_token token_expiry issue
  create_token-Dead actor req = search (dead_rules, entitled_owner-Dead) depth 14

  revoke_token-Dead :
      (actor : RequestUser) (id : String) → Keeps (Dead secret) (revoke_token actor id)
  unfolding revoke_token
  revoke_token-Dead actor id = search dead_rules depth 14

  logged_in-Dead :
      (o : Origin) (u : User) (r : Result (Unit {0})) → Keeps (Dead secret) (logged_in o u r)
  logged_in-Dead o u (err e) = search dead_rules
  logged_in-Dead o u (ok _) = search dead_rules

  open_session-Dead :
      (sec : Security) (o : Origin) (name : String) (u : Option User)
      → Keeps (Dead secret) (open_session sec o name u)
  open_session-Dead sec o name none = search dead_rules
  open_session-Dead sec o name (some u) = search (dead_rules, logged_in-Dead) depth 14

  login_post-Dead :
      (b : Bcrypt) (sec : Security) (o : Origin) (name password : String)
      → Keeps (Dead secret) (login_post b sec o name password)
  unfolding login_post
  login_post-Dead b sec o name password = search (dead_rules, open_session-Dead)

  logout_post-Dead : (c : Option String) → Keeps (Dead secret) (logout_post c)
  unfolding logout_post
  logout_post-Dead none = search dead_rules
  logout_post-Dead (some id) = search dead_rules

  admin_added-Dead :
      (o : Origin) (name id : String) (r : Result (Unit {0}))
      → Keeps (Dead secret) (admin_added o name id r)
  admin_added-Dead o name id (err e) = search dead_rules
  admin_added-Dead o name id (ok _) = search dead_rules

  add_admin-Dead :
      (o : Origin) (name : String) (h : Result String) → Keeps (Dead secret) (add_admin o name h)
  add_admin-Dead o name (err e) = search dead_rules
  add_admin-Dead o name (ok h) = search (dead_rules, admin_added-Dead) depth 14

  setup_form-Dead :
      (b : Bcrypt) (o : Origin) (name password : String) (has : Result Bool)
      → Keeps (Dead secret) (setup_form b o name password has)
  setup_form-Dead b o name password (err e) = search dead_rules
  setup_form-Dead b o name password (ok has) = search (dead_rules, add_admin-Dead)

  setup_post-Dead :
      (b : Bcrypt) (o : Origin) (name password : String)
      → Keeps (Dead secret) (setup_post b o name password)
  unfolding setup_post
  setup_post-Dead b o name password = search (dead_rules, setup_form-Dead)

-- The calls that reach the server, with what the requests carry.
pub data Call : Type 0 where
  enter : Request → Call  -- `requireAuth`, in front of a handler
  login : Origin → String → String → Call
  logout : Option String → Call
  setup : Origin → String → String → Call
  create : RequestUser → ApiTokenCreateRequest → Call
  revoke : RequestUser → String → Call
  machine : Config → VmCall → Call
  make : Config → CreateRequest → Call
  kernel : KernelCall → Call

-- A call is answered and its answer sent away, an error's too.
unfoldable pub serve : Bcrypt → Security → Call → M (Unit {0})
serve b sec (Call.enter r) = do try (require_auth sec r); pure tt
serve b sec (Call.login o name password) = do try (login_post b sec o name password); pure tt
serve b sec (Call.logout c) = do try (logout_post c); pure tt
serve b sec (Call.setup o name password) = do try (setup_post b o name password); pure tt
serve b sec (Call.create actor req) = do try (create_token actor req); pure tt
serve b sec (Call.revoke actor id) = do try (revoke_token actor id); pure tt
serve b sec (Call.machine cfg c) = operate cfg c
serve b sec (Call.make cfg req) = do try (create_machine cfg req); pure tt
serve b sec (Call.kernel c) = do try (call_kernel c); pure tt

unfoldable pub serve_all : Bcrypt → Security → List Call → M (Unit {0})
serve_all b sec [] = pure tt
serve_all b sec (c ∷ cs) = do serve b sec c; serve_all b sec cs

module _ (b : Bcrypt) (sec : Security) (secret : String) where
  serve-Dead : (c : Call) → Keeps (Dead secret) (serve b sec c)
  unfolding serve
  serve-Dead (Call.enter r) = search (dead_rules, require_auth-Dead)
  serve-Dead (Call.login o name password) = search (dead_rules, login_post-Dead)
  serve-Dead (Call.logout c) = search (dead_rules, logout_post-Dead)
  serve-Dead (Call.setup o name password) = search (dead_rules, setup_post-Dead)
  serve-Dead (Call.create actor req) = search (dead_rules, create_token-Dead)
  serve-Dead (Call.revoke actor id) = search (dead_rules, revoke_token-Dead)
  serve-Dead (Call.machine cfg c) = operate-Dead secret cfg c
  serve-Dead (Call.make cfg req) = search (dead_rules, create_machine-Dead)
  serve-Dead (Call.kernel c) = search (dead_rules, call_kernel-Dead)

  pub serve_all-Dead : (cs : List Call) → Keeps (Dead secret) (serve_all b sec cs)
  unfolding serve_all
  serve_all-Dead [] = search dead_rules
  serve_all-Dead (c ∷ cs) = Keeps-bind _ _ (serve-Dead c) λ _. serve_all-Dead cs
