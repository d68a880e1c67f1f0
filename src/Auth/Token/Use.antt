-- ===== src/Auth/Token/Use.antt =====
-- What a bearer token that is accepted shows.
use Prim.Native.String
use bap_web.Prelude.{
  ℕ, suc, String, true, ◌&&◌, List, Option, none, some, false, ◌≡◌, ◌⊎◌, ◌=?◌, find, inl, inr,
  arith, Option-cases, Bool-cases, eq_iff,
}
use bap_web.Model.{User, ApiToken}
use bap_web.Store.Db.{Db, TokenRow}
use bap_web.Store.Access.{owner_username, get_api_token_by_hash, touch_api_token, user_by_id}
use bap_web.World.{Env, World, ok, ◌>>=◌, statement, time_now, attempt, modify}
use bap_web.Auth.Request.{RequestUser}
use bap_web.Auth.Token.{token_user, current_token_user, is_past}

-- The first row whose hash is that of the secret.
abbrev pub token_row : Env → Db → String → Option TokenRow
token_row env d secret = find (λ r. r.token_hash =? env.sha256_hex secret) d.api_tokens

abbrev pub user_with : List User → String → Option User
user_with users id = find (λ u. u.id =? id) users

-- The token lets the user in at that time. Without an owner, the user has the token's id and rights,
-- and a name that is made of the token's. Where the token has an owner, the owner's row is there, the
-- user has the owner's id and name, and is an admin exactly if both the token and the owner are.
pub record Backs (users : List User) (t : ApiToken) (now : ℕ) (u : RequestUser) : Type 0 where
  pub unrevoked : t.revoked_at ≡ none
  pub unexpired : is_past t.expires_at now ≡ false
  pub marked : u.is_token ≡ true
  pub rights :
      ((t.owner_user_id ≡ "")
        × (u.id ≡ t.id)
        × (u.username ≡ String.◌++◌ "token:" t.name)
        × (u.is_admin ≡ t.is_admin))
      ⊎ ((o : User) × (user_with users t.owner_user_id ≡ some o)
          × (u.id ≡ o.id)
          × (u.username ≡ o.username)
          × (u.is_admin ≡ (t.is_admin && o.is_admin)))

token_user-Backs :
    (v : World) (t : ApiToken) (u : RequestUser)
    → (token_user (some t) v).0 ≡ ok (some u)
    → Backs v.db.users t (v.env.clock v.step) u
unfolding token_user ◌>>=◌ touch_api_token user_by_id attempt statement time_now modify
token_user-Backs v t u h = record {
  unrevoked = ground arith;
  unexpired = ground arith;
  marked = ground arith;
  rights = elim (Bool-cases (t.owner_user_id =? "")) [
    | inl legacy ↦ inl ((eq_iff _ _).0 legacy, ground arith, ground arith, ground arith)
    | inr owned ↦ elim (Option-cases (user_with v.db.users t.owner_user_id)) [
      | inl gone ↦ absurd (ground arith)
      | inr (o, there) ↦ inr (o, there, ground arith, ground arith, ground arith)
    ]
  ];
}

-- The row's token as a query returns it, with its owner's name.
abbrev pub the_token : World → TokenRow → ApiToken
the_token w r = record r.token {
  owner_username = owner_username (user_with w.db.users r.token.owner_user_id);
}

current_token_user-row :
    (w : World) (secret : String) (u : RequestUser)
    → (current_token_user secret w).0 ≡ ok (some u)
    → (r : TokenRow) × (token_row w.env w.db secret ≡ some r)
      × ((token_user (some (the_token w r)) (record w { step = suc w.step })).0 ≡ ok (some u))
unfolding current_token_user ◌>>=◌ get_api_token_by_hash statement
current_token_user-row w secret u h = elim (Option-cases (token_row w.env w.db secret)) [
  | inl missing ↦ absurd (unfold token_user in ground arith)
  | inr (r, found) ↦ (r, found, ground arith)
]

-- A secret that `currentTokenUser` accepts is that of a row whose token is neither revoked nor
-- expired, and the user has the rights that this row and its owner's row give.
pub current_token_user-Backs :
    (w : World) (secret : String) (u : RequestUser)
    → (current_token_user secret w).0 ≡ ok (some u)
    → (r : TokenRow) × (token_row w.env w.db secret ≡ some r)
      × Backs w.db.users r.token (w.env.clock (suc w.step)) u
current_token_user-Backs w secret u h =
    let (r, found, e) = current_token_user-row w secret u h in
    let b = token_user-Backs _ (the_token w r) u e in
    (
      r,
      found,
      record {
        unrevoked = b.unrevoked;
        unexpired = b.unexpired;
        marked = b.marked;
        rights = b.rights;
      },
    )
