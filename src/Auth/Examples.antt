-- ===== src/Auth/Examples.antt =====
-- Runs of the authentication code at small databases, and the theorems at them.
use bap_web.Prelude.{
  eq_iff, arith, find, ◌≤◌, ◌↔◌, ℕ, suc, String, Bool, true, false, Option, none, some, List, [],
  ◌∷◌, ◌≡◌, ◌≢◌, ◌⊎◌, refl, ◌=?◌, if◌then◌else◌,
}
use Prim.Native.String
use mathlib.Core.Bool.{false≢true}
use bap_web.Model.{User, ApiToken}
use bap_web.Store.Db.{TokenRow, empty}
use bap_web.Store.Access.{
  has_users, user_by_id, get_api_token_by_hash, get_api_token_by_id, touch_api_token,
  revoke_api_token, create_api_token,
}
use bap_web.Store.Vms.{refuse_clash}
use bap_web.Errors.{Error}
use bap_web.World.{err}
use bap_web.World.{
  World, Env, ok, ◌>>=◌, attempt, quiet, refuse_if, statement, time_now, random_hex, modify,
}
use bap_web.Auth.Request.{Request, RequestUser, Security, next, bearer_token}
use bap_web.Auth.Session.{current_user}
use bap_web.Auth.Token.{current_token_user, token_user, revoke_token}
use bap_web.Auth.Gate.{require_auth, authenticate, by_session}
use bap_web.Auth.Request.{Origin}
use bap_web.Auth.Session.{Bcrypt}
use bap_web.Auth.Session.{setup_post}
use bap_web.Auth.Session.Setup.{setup_post-once}
use bap_web.Lifecycle.Fixtures.{site}
use bap_web.Lifecycle.Vms.Calls.{VmCall}
use bap_web.Kernels.Statuses.{KernelCall}
use bap_web.Auth.Calls.{Call, serve_all}
use bap_web.Auth.Revocation.{revoked-shut}
use bap_web.Auth.Token.{api_token_status, TokenStatus, is_dead, ApiTokenCreateRequest, create_token}
use bap_web.Auth.Token.Owner.{revoke_token-authorized, api_token_status-active}
use bap_web.Auth.Token.Grant.{Granted, create_token-Granted}
use bap_web.Auth.Token.Cycle.{create_token-accepted}
use bap_web.Auth.Token.Use.{token_row}
use bap_web.Auth.Gate.Sound.{ByToken, BySession, require_auth_sound}

-- No command fails, and the clock shows the number of the interaction.
abbrev calm : Env
calm = record {
  clock = λ n. n;
  sql = λ n. none;
  outcome = λ n a. none;
  output = λ n words. ok "default via 10.0.0.1 dev eth0";
  guest = λ n user ip command. err (Error.plain "no guest");
  file_size = λ n path. ok (some 1048576);
  file_text = λ n path. ok "";
  hex = λ n bytes. "ab";
  created_before = λ a b. false;
  sha256_hex = λ s. String.◌++◌ "hash of " s;
  parse_time = λ s. none;
}

abbrev ada : User
ada = record { id = "u1"; username = "ada"; password_hash = "x"; is_admin = true; created_at = 0 }

abbrev deploy : ApiToken
deploy = record {
  id = "t1";
  name = "deploy";
  prefix = "bap_s3cret";
  is_admin = true;
  owner_user_id = "u1";
  owner_username = "ada";
  created_by = "ada";
  created_at = 0;
  last_used_at = none;
  expires_at = some 1000;
  revoked_at = none;
}

abbrev small : World
small = record {
  env = calm;
  step = 0;
  db = record empty {
    users = ada ∷ [];
    api_tokens = (record { token = deploy; token_hash = "hash of s3cret" }) ∷ [];
  };
  performed = [];
}

abbrev limits : Security
limits = record { session_idle_timeout = 100; session_absolute_timeout = 1000 }

abbrev with_token : Request
with_token = record {
  method = "POST";
  path = "/api/vms";
  authorization = "Bearer s3cret";
  cookie = none;
  csrf_header = "";
  csrf_form = "";
}

abbrev as_ada : RequestUser
as_ada = record { id = "u1"; username = "ada"; is_admin = true; csrf = ""; is_token = true }

passes : (require_auth limits with_token small).0 ≡ ok (next as_ada)
unfolding require_auth authenticate by_session current_user current_token_user token_user
    bearer_token has_users user_by_id get_api_token_by_hash touch_api_token ◌>>=◌ attempt quiet
    statement time_now modify bap_web.Text.trim_space bap_web.Text.cut_space bap_web.Text.to_lower
    bap_web.Prelude.find
passes = refl

require_auth_sound_example :
    ByToken small.env small.db 2 with_token as_ada ⊎ BySession limits small.db 2 with_token as_ada
require_auth_sound_example = require_auth_sound limits small with_token as_ada passes

abbrev outsider : Bcrypt
outsider = record { generate = λ s. ok s; compare = λ h s. h =? s }

abbrev here : Origin
here = record { source = "10.0.0.7"; request_id = "r1" }

abbrev afterwards : List Call
afterwards =
    Call.enter with_token
    ∷ Call.login here "ada" "x"
    ∷ Call.machine site (VmCall.stop "v1")
    ∷ Call.kernel (KernelCall.remove "k1")
    ∷ []

revokes : (revoke_token as_ada "t1" small).0 ≡ ok tt
unfolding revoke_token ◌>>=◌ get_api_token_by_id statement find refuse_if revoke_api_token time_now
    modify
revokes = refl

bears : bearer_token with_token ≢ ""
unfolding bearer_token bap_web.Text.trim_space bap_web.Text.cut_space bap_web.Text.to_lower
bears e = absurd (false≢true ((eq_iff "s3cret" "").1 e))

finds :
    token_row small.env small.db (bearer_token with_token)
    ≡ some (record { token = deploy; token_hash = "hash of s3cret" })
unfolding find bearer_token bap_web.Text.trim_space bap_web.Text.cut_space bap_web.Text.to_lower
finds = refl

revoked-shut_example :
    (require_auth limits with_token
      (serve_all outsider limits afterwards (revoke_token as_ada "t1" small).1).1).0
    ≢ ok (next as_ada)
revoked-shut_example =
    revoked-shut outsider limits small as_ada "t1"
      (record { token = deploy; token_hash = "hash of s3cret" }) afterwards with_token as_ada finds
      refl bears revokes

revoke_token-authorized_example :
    (row : TokenRow) × (find (λ r. r.token.id =? "t1") small.db.api_tokens ≡ some row)
    × ((true ≡ true) ⊎ ((row.token.owner_user_id ≢ "") × (row.token.owner_user_id ≡ "u1")))
revoke_token-authorized_example = revoke_token-authorized small as_ada "t1" revokes

api_token_status-active_example :
    (api_token_status deploy 1000 ≡ TokenStatus.active)
    ↔ ((is_dead deploy 1000 ≡ false) × (deploy.expires_at ≢ some 1000))
api_token_status-active_example = api_token_status-active deploy 1000

abbrev asked : ApiTokenCreateRequest
asked = record { name = " ci "; owner_user_id = ""; is_admin = some true; expires_at = "" }

abbrev made : ApiToken
made = record {
  id = "ab";
  name = "ci";
  prefix = "bap_ab";
  is_admin = true;
  owner_user_id = "u1";
  owner_username = "ada";
  created_by = "ada";
  created_at = 5;
  last_used_at = none;
  expires_at = some 2592000000000001;
  revoked_at = none;
}

creates : (create_token as_ada asked small).0 ≡ ok (made, "bap_ab")
unfolding create_token ◌>>=◌ bap_web.Auth.Token.entitled_owner refuse_if bap_web.Text.trim_space
    user_by_id statement find bap_web.Auth.Token.token_expiry time_now bap_web.Auth.Token.issue
    random_hex create_api_token refuse_clash bap_web.Prelude.any modify bap_web.Text.byte_prefix
creates = refl

create_token-Granted_example :
    Granted small (create_token as_ada asked small).1 as_ada made "bap_ab"
create_token-Granted_example = create_token-Granted small as_ada asked made "bap_ab" creates

owned : made.owner_user_id ≢ ""
owned e = absurd (false≢true ((eq_iff "u1" "").1 e))

in-time : let v = (create_token as_ada asked small).1 in v.env.clock (suc v.step) ≤ 2592000000000001
unfolding create_token ◌>>=◌ bap_web.Auth.Token.entitled_owner refuse_if bap_web.Text.trim_space
    user_by_id statement find bap_web.Auth.Token.token_expiry time_now bap_web.Auth.Token.issue
    random_hex create_api_token refuse_clash bap_web.Prelude.any modify
in-time = omega arith

calm-sql : (n : ℕ) → (create_token as_ada asked small).1.env.sql n ≡ none
unfolding create_token ◌>>=◌ bap_web.Auth.Token.entitled_owner refuse_if bap_web.Text.trim_space
    user_by_id statement find bap_web.Auth.Token.token_expiry time_now bap_web.Auth.Token.issue
    random_hex create_api_token refuse_clash bap_web.Prelude.any modify
calm-sql n = refl

create_token-accepted_example :
    (current_token_user "bap_ab" (create_token as_ada asked small).1).0
    ≡ ok
        (some (record { id = "u1"; username = "ada"; is_admin = true; csrf = ""; is_token = true }))
create_token-accepted_example =
    create_token-accepted small as_ada asked made "bap_ab" 2592000000000001 creates owned refl
      in-time calm-sql

someone : small.db.users ≢ []
someone e = cc

setup_post-once_example : (setup_post outsider here "eve" "long enough pw" small).1.db ≡ small.db
setup_post-once_example = setup_post-once outsider here "eve" "long enough pw" small someone
