-- ===== src/Auth/Token.antt =====
-- API tokens of internal/app/app.go: use, creation, revocation, and the status that is shown.
pub mod Use
pub mod Grant
pub mod Cycle
pub mod Owner
use Prim.Native.String
use bap_web.Prelude.{
  ℕ, ◌+◌, ◌*◌, String, Bool, true, false, ◌||◌, ◌&&◌, not, Option, none, some, [], ◌∷◌, ltb, leb,
  ◌=?◌, if◌then◌else◌,
}
use bap_web.Errors.{invalid, not_found, forbidden}
use bap_web.Model.{User, ApiToken}
use bap_web.Store.Access.{
  user_by_id, create_api_token, get_api_token_by_id, get_api_token_by_hash, touch_api_token,
  revoke_api_token,
}
use bap_web.World.{M, pure, gets, or_raise, ◌>>=◌, ◌>>◌, attempt, refuse_if, time_now, random_hex}
use bap_web.Text.{trim_space, byte_prefix}
use bap_web.Auth.Request.{RequestUser}

-- `defaultAPITokenTTL`, in nanoseconds.
abbrev default_api_token_ttl : ℕ
default_api_token_ttl = 30 * 24 * 3600 * 1000000000

abbrev is_past : Option ℕ → ℕ → Bool
is_past none now = false
is_past (some t) now = ltb t now

abbrev is_set : Option ℕ → Bool
is_set none = false
is_set (some _) = true

-- The test by which `currentTokenUser` turns a token away.
pub is_dead : ApiToken → ℕ → Bool
is_dead t now = is_set t.revoked_at || is_past t.expires_at now

abbrev as_owner : ApiToken → Option User → Option RequestUser
as_owner t none = none
as_owner t (some owner) = some (record {
  id = owner.id;
  username = owner.username;
  is_admin = t.is_admin && owner.is_admin;
  csrf = "";
  is_token = true;
})

-- The rest of `currentTokenUser`, once the token's row is read.
unfoldable pub token_user : Option ApiToken → M (Option RequestUser)
unfolding is_dead
token_user none = pure none
token_user (some t) = do
  now ← time_now
  if is_dead t now then pure none else do
    attempt (touch_api_token t.id)
    if t.owner_user_id =? ""
        then pure (
            some (record {
              id = t.id;
              username = String.◌++◌ "token:" t.name;
              is_admin = t.is_admin;
              csrf = "";
              is_token = true;
            }))
        else do owner ← user_by_id t.owner_user_id; pure (as_owner t owner)

-- `currentTokenUser`: `none` where it returns false and no error.
unfoldable pub current_token_user : String → M (Option RequestUser)
unfolding token_user
current_token_user secret = do
  hash ← gets (λ w. w.env.sha256_hex secret)
  token ← get_api_token_by_hash hash
  token_user token

pub data TokenStatus : Type 0 where
  active revoked expired : TokenStatus

abbrev is_reached : Option ℕ → ℕ → Bool
is_reached none now = false
is_reached (some t) now = leb t now

-- `apiTokenStatus`
pub api_token_status : ApiToken → ℕ → TokenStatus
api_token_status t now =
    if is_set t.revoked_at
    then TokenStatus.revoked
    else if is_reached t.expires_at now
    then TokenStatus.expired
    else TokenStatus.active

-- `APITokenCreateRequest`
pub record ApiTokenCreateRequest : Type 0 where
  pub name : String
  pub owner_user_id : String
  pub is_admin : Option Bool
  pub expires_at : String

abbrev pub wants_admin : Option Bool → Bool
wants_admin none = false
wants_admin (some b) = b

-- For whom the token is, by the actor's rights.
unfoldable pub token_owner : RequestUser → String → Bool → M String
token_owner actor owner_id admin =
    if actor.is_admin then pure (if owner_id =? "" then actor.id else owner_id) else do
      refuse_if (not (owner_id =? "") && not (owner_id =? actor.id))
          (forbidden "users can only create API tokens for themselves")
      refuse_if admin (forbidden "users cannot create admin API tokens")
      pure actor.id

-- The checks of `createAPIToken` up to the owner's rights: the owner's row.
unfoldable pub entitled_owner : RequestUser → ApiTokenCreateRequest → M User
unfolding token_owner
entitled_owner actor req = do
  refuse_if (actor.is_token && not actor.is_admin)
      (forbidden "non-admin bearer tokens cannot create API tokens")
  refuse_if (trim_space req.name =? "")
      (invalid "Token name is required" (("name", "required") ∷ []))
  owner_id ← token_owner actor (trim_space req.owner_user_id) (wants_admin req.is_admin)
  found ← user_by_id owner_id
  owner ← or_raise found (not_found "Token owner user not found")
  refuse_if (wants_admin req.is_admin && not owner.is_admin) (
      invalid "Admin API tokens can only be created for admin users"
        (("is_admin", "owner is not an admin user") ∷ []))
  pure owner

-- When the token ends: as asked, or after the default time, and not before now.
unfoldable pub token_expiry : String → M ℕ
token_expiry text = do
  expires_at ←
      if trim_space text =? "" then (do now ← time_now; pure (now + default_api_token_ttl)) else do
        parsed ← gets (λ w. w.env.parse_time (trim_space text))
        or_raise parsed (invalid "Token expiry is invalid" (("expires_at", "must be RFC3339") ∷ []))
  now ← time_now
  refuse_if (leb expires_at now)
      (invalid "Token expiry must be in the future" (("expires_at", "must be in the future") ∷ []))
  pure expires_at

-- The row is written with the hash of the secret, and the secret is returned with it.
unfoldable pub issue : RequestUser → ApiTokenCreateRequest → User → ℕ → M (ApiToken × String)
issue actor req owner expires_at = do
  random ← random_hex 32
  let secret = String.◌++◌ "bap_" random
  id ← random_hex 16
  created ← time_now
  let token : ApiToken = record {
    id = id;
    name = trim_space req.name;
    prefix = byte_prefix 16 secret;
    is_admin = wants_admin req.is_admin;
    owner_user_id = owner.id;
    owner_username = owner.username;
    created_by = actor.username;
    created_at = created;
    last_used_at = none;
    expires_at = some expires_at;
    revoked_at = none;
  }
  hash ← gets (λ w. w.env.sha256_hex secret)
  create_api_token token hash
  pure (token, secret)

-- `createAPIToken`: the token's row and its secret.
unfoldable pub create_token : RequestUser → ApiTokenCreateRequest → M (ApiToken × String)
create_token actor req = do
  owner ← entitled_owner actor req
  expires_at ← token_expiry req.expires_at
  issue actor req owner expires_at

-- `revokeAPIToken`
unfoldable pub revoke_token : RequestUser → String → M (Unit {0})
revoke_token actor id = do
  found ← get_api_token_by_id id
  token ← or_raise found (not_found "API token not found")
  refuse_if
      (not actor.is_admin && (token.owner_user_id =? "" || not (token.owner_user_id =? actor.id)))
      (forbidden "users can only revoke their own API tokens")
  revoke_api_token id
