-- ===== src/Auth/Token/Grant.antt =====
-- What the creation of a token requires, and what it leaves in the database.
use bap_web.Prelude.{
  any, ℕ, suc, ◌<◌, String, true, false, List, ◌∷◌, [], ◌++◌, none, some, ◌≡◌, ◌⊎◌, ◌=?◌,
  find-passes, arith, eq_iff, if◌then◌else◌,
}
use bap_web.Text.{trim_space}
use bap_web.Model.{User, ApiToken}
use bap_web.Store.Access.{user_by_id, create_api_token}
use bap_web.Store.Vms.{refuse_clash}
use bap_web.World.{World, ok, ◌>>=◌, statement, time_now, refuse_if, random_hex, modify}
use bap_web.World.Steps.{bind-eq-ok}
use bap_web.Auth.Request.{RequestUser}
use bap_web.Auth.Token.{
  ApiTokenCreateRequest, wants_admin, token_owner, entitled_owner, token_expiry, issue,
  create_token,
}
use bap_web.Auth.Token.Use.{user_with}

-- The id under which the owner is looked up.
abbrev chosen : RequestUser → ApiTokenCreateRequest → String
chosen actor req =
    if actor.is_admin
    then if trim_space req.owner_user_id =? "" then actor.id else trim_space req.owner_user_id
    else actor.id

user_with-id :
    (users : List User) (id : String) (u : User) → user_with users id ≡ some u → u.id ≡ id
user_with-id users id u e = (eq_iff u.id id).0 (find-passes (λ r. r.id =? id) users u e)

-- What the checks establish of the owner and the actor, and that they write nothing.
record Entitles (w v : World) (actor : RequestUser) (req : ApiTokenCreateRequest) (owner : User)
    : Type 0 where
  found : user_with w.db.users (chosen actor req) ≡ some owner
  admin_actor : wants_admin req.is_admin ≡ true → actor.is_admin ≡ true
  admin_owner : wants_admin req.is_admin ≡ true → owner.is_admin ≡ true
  no_token : actor.is_admin ≡ false → actor.is_token ≡ false
  db : v.db ≡ w.db
  env : v.env ≡ w.env
  step : v.step ≡ suc w.step

entitled_owner-Entitles :
    (w : World) (actor : RequestUser) (req : ApiTokenCreateRequest) (owner : User)
    → (entitled_owner actor req w).0 ≡ ok owner
    → Entitles w (entitled_owner actor req w).1 actor req owner
unfolding entitled_owner token_owner ◌>>=◌ user_by_id statement refuse_if
entitled_owner-Entitles w actor req owner h = record {
  found = ground arith;
  admin_actor = ground arith;
  admin_owner = ground arith;
  no_token = ground arith;
  db = ground arith;
  env = ground arith;
  step = ground arith;
}

-- The granted token, in terms of the database before and after.
pub record Granted (w v : World) (actor : RequestUser) (t : ApiToken) (secret : String)
    : Type 0 where
  pub owner : User
  pub owned : user_with w.db.users owner.id ≡ some owner
  pub owner_id : t.owner_user_id ≡ owner.id
  pub admin_actor : t.is_admin ≡ true → actor.is_admin ≡ true
  pub admin_owner : t.is_admin ≡ true → owner.is_admin ≡ true
  pub own : actor.is_admin ≡ false → (t.owner_user_id ≡ actor.id) × (actor.is_token ≡ false)
  pub unrevoked : t.revoked_at ≡ none
  pub expiry :
      (n : ℕ) × (t.expires_at ≡ some n)
      × ((w.env.clock (suc w.step) < n) ⊎ (w.env.clock (suc (suc w.step)) < n))
  pub stored :
      v.db.api_tokens
      ≡ w.db.api_tokens ++ (record { token = t; token_hash = w.env.sha256_hex secret }) ∷ []
  pub users : v.db.users ≡ w.db.users
  pub env : v.env ≡ w.env
  pub named : t.owner_username ≡ owner.username
  pub fresh : any (λ r. r.token_hash =? w.env.sha256_hex secret) w.db.api_tokens ≡ false

record Issued (w v : World) (actor : RequestUser) (req : ApiTokenCreateRequest) (owner : User)
    (expires_at : ℕ) (t : ApiToken) (secret : String) : Type 0 where
  is_admin : t.is_admin ≡ wants_admin req.is_admin
  owner_id : t.owner_user_id ≡ owner.id
  expiry : t.expires_at ≡ some expires_at
  unrevoked : t.revoked_at ≡ none
  stored :
      v.db.api_tokens
      ≡ w.db.api_tokens ++ (record { token = t; token_hash = w.env.sha256_hex secret }) ∷ []
  users : v.db.users ≡ w.db.users
  env : v.env ≡ w.env
  named : t.owner_username ≡ owner.username
  fresh : any (λ r. r.token_hash =? w.env.sha256_hex secret) w.db.api_tokens ≡ false

issue-Issued :
    (w : World) (actor : RequestUser) (req : ApiTokenCreateRequest) (owner : User) (expires_at : ℕ)
    (t : ApiToken) (secret : String)
    → (issue actor req owner expires_at w).0 ≡ ok (t, secret)
    → Issued w (issue actor req owner expires_at w).1 actor req owner expires_at t secret
unfolding issue ◌>>=◌ random_hex time_now create_api_token refuse_clash statement modify
issue-Issued w actor req owner expires_at t secret h = record {
  is_admin = ground arith;
  owner_id = ground arith;
  expiry = ground arith;
  unrevoked = ground arith;
  stored = ground arith;
  users = ground arith;
  env = ground arith;
  named = ground arith;
  fresh = ground arith;
}

-- The expiry that is accepted lies after some reading of the clock, and nothing is written.
token_expiry-later :
    (w : World) (text : String) (t : ℕ)
    → (token_expiry text w).0 ≡ ok t
    → ((token_expiry text w).1.db ≡ w.db)
      × ((token_expiry text w).1.env ≡ w.env)
      × ((w.env.clock w.step < t) ⊎ (w.env.clock (suc w.step) < t))
unfolding token_expiry ◌>>=◌ time_now refuse_if
token_expiry-later w text t h = (ground arith, ground arith, ground arith)

-- A token is created only for a user who exists, by an admin or by that user, and not by a bearer
-- token without admin rights. An admin's token needs an admin as its actor and as its owner. The
-- token is not revoked and ends after the clock's reading at that time. Its row is added to the
-- table with the hash of the secret, and no other row of the tokens or users changes.
pub create_token-Granted :
    (w : World) (actor : RequestUser) (req : ApiTokenCreateRequest) (t : ApiToken) (secret : String)
    → (create_token actor req w).0 ≡ ok (t, secret)
    → Granted w (create_token actor req w).1 actor t secret
unfolding create_token
create_token-Granted w actor req t secret h =
    let (owner, e, all, k) = bind-eq-ok (entitled_owner actor req) _ w h in
    let v = (entitled_owner actor req w).1 in
    let (n, e', rest, k') = bind-eq-ok (token_expiry req.expires_at) (issue actor req owner) v k in
    let en = entitled_owner-Entitles w actor req owner e in
    let later = token_expiry-later v req.expires_at n e' in
    let u = (token_expiry req.expires_at v).1 in
    let is = issue-Issued u actor req owner n t secret k' in
    let same_id = user_with-id w.db.users (chosen actor req) owner en.found in
    record {
      owner = owner;
      owned = rw (same_id) en.found;
      owner_id = is.owner_id;
      admin_actor = ground arith;
      admin_owner = ground arith;
      own = λ plain. (ground arith, en.no_token plain);
      unrevoked = is.unrevoked;
      expiry = (n, is.expiry, ground arith);
      stored = ground arith;
      users = ground arith;
      env = ground arith;
      named = is.named;
      fresh = ground arith;
    }
