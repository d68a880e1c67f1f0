-- ===== src/Auth/Token/Cycle.antt =====
-- A token that was created is accepted as its owner's.
use bap_web.Prelude.{
  ◌∙◌, ap, ℕ, suc, ◌≤◌, String, true, ◌&&◌, none, some, ◌≡◌, ◌≢◌, refl, ◌=?◌, arith, eq_iff,
}
use bap_web.Model.{User, ApiToken}
use bap_web.Store.Db.{TokenRow}
use bap_web.Store.Table.Laws.{find-new}
use bap_web.Store.Access.{get_api_token_by_hash, touch_api_token, user_by_id}
use bap_web.World.{World, ok, ◌>>=◌, statement, time_now, attempt, modify}
use bap_web.Auth.Request.{RequestUser}
use bap_web.Auth.Token.{ApiTokenCreateRequest, create_token, token_user, current_token_user}
use bap_web.Auth.Token.Use.{token_row, user_with, the_token}
use bap_web.Auth.Token.Grant.{create_token-Granted}

abbrev as_user : ApiToken → User → RequestUser
as_user t o = record {
  id = o.id;
  username = o.username;
  is_admin = t.is_admin && o.is_admin;
  csrf = "";
  is_token = true;
}

reads-row :
    (w : World) (secret : String) (row : TokenRow)
    → token_row w.env w.db secret ≡ some row
    → w.env.sql w.step ≡ none
    → current_token_user secret w
      ≡ token_user (some (the_token w row)) (record w { step = suc w.step })
unfolding current_token_user ◌>>=◌ get_api_token_by_hash statement
reads-row w secret row found calm = rw (calm, found) refl

accepts-owned :
    (v : World) (t : ApiToken) (o : User) (last : ℕ)
    → user_with v.db.users t.owner_user_id ≡ some o
    → t.owner_user_id ≢ ""
    → t.revoked_at ≡ none
    → t.expires_at ≡ some last
    → v.env.clock v.step ≤ last
    → ((n : ℕ) → v.env.sql n ≡ none)
    → (token_user (some t) v).0 ≡ ok (some (as_user t o))
unfolding token_user ◌>>=◌ touch_api_token user_by_id attempt statement time_now modify
accepts-owned v t o last owner owned unrevoked ends before calm =
    let n = suc (suc v.step) in
    ground (arith, eq_iff t.owner_user_id "", calm n, calm (suc n), calm (suc (suc n)))

entitled :
    (t : ApiToken) (o : User)
    → t.owner_user_id ≡ o.id
    → t.owner_username ≡ o.username
    → (t.is_admin ≡ true → o.is_admin ≡ true)
    → as_user t o ≡ (record {
      id = t.owner_user_id;
      username = t.owner_username;
      is_admin = t.is_admin;
      csrf = "";
      is_token = true;
    })
entitled t o id name admin = ground arith

-- A secret that `createAPIToken` returned for a token with an owner, whose id is not empty, is
-- accepted at once as that owner, with the rights that the token asks for, until the token ends and
-- where the driver reports no error.
pub create_token-accepted :
    (w : World) (actor : RequestUser) (req : ApiTokenCreateRequest) (t : ApiToken) (secret : String)
    (last : ℕ)
    → (create_token actor req w).0 ≡ ok (t, secret)
    → t.owner_user_id ≢ ""
    → t.expires_at ≡ some last
    → let v = (create_token actor req w).1 in
      v.env.clock (suc v.step) ≤ last
      → ((n : ℕ) → v.env.sql n ≡ none)
      → (current_token_user secret v).0
        ≡ ok (
            some (record {
              id = t.owner_user_id;
              username = t.owner_username;
              is_admin = t.is_admin;
              csrf = "";
              is_token = true;
            }))
create_token-accepted w actor req t secret last h owned ends before calm =
    let v = (create_token actor req w).1 in
    let g = create_token-Granted w actor req t secret h in
    let row : TokenRow = record { token = t; token_hash = w.env.sha256_hex secret } in
    let new =
      find-new (λ r. r.token_hash =? w.env.sha256_hex secret) w.db.api_tokens row g.fresh
        ((eq_iff _ _).1 refl) in
    ap (λ p. p.0) (reads-row v secret row (rw (g.stored, g.env) new) (calm v.step))
    ∙ accepts-owned (record v { step = suc v.step }) (the_token v row) g.owner last
        (rw (g.users, g.owner_id) g.owned) owned g.unrevoked ends before calm
    ∙ ap (λ u. ok (some u)) (entitled t g.owner g.owner_id g.named g.admin_owner)
