-- ===== src/Auth/Revocation.antt =====
-- Revocation: a secret that was revoked stays shut out, whatever calls are answered afterwards.
use bap_web.Prelude.{
  ◌≢◌, inl, inr, suc, true, Option-cases, eq_iff, ℕ, String, some, List, ◌≡◌, ◌∙◌, arith, is_some,
  ◌=?◌, refl,
}
use bap_web.Store.Db.{TokenRow}
use bap_web.Store.Table.{update}
use bap_web.Store.Table.Laws.{find-update}
use bap_web.Store.Access.{get_api_token_by_id, revoke_api_token, revoke}
use bap_web.World.{World, ok, ◌>>=◌, refuse_if, statement, time_now, modify}
use bap_web.Auth.Request.{RequestUser, Request, bearer_token, next, Security}
use bap_web.Auth.Session.{Bcrypt}
use bap_web.Auth.Token.{revoke_token}
use bap_web.Auth.Token.Use.{token_row}
use bap_web.Auth.Gate.{require_auth}
use bap_web.Auth.Gate.Sound.{ByToken, require_auth_sound}
use bap_web.Auth.Dead.{Dead}
use bap_web.Auth.Calls.{Call, serve_all, serve_all-Dead}

-- The row that a dead secret finds is not one that lets anybody in.
Dead-no-ByToken :
    (w : World) (now : ℕ) (r : Request) (u : RequestUser)
    → Dead (bearer_token r) w.env w.db
    → ByToken w.env w.db now r u
    → ⊥
Dead-no-ByToken w now r u d t =
    let row = d.row in
    let revoked = d.revoked in
    let found = d.found in let found' = t.found in let unset = t.backs.unrevoked in ground arith

-- A revocation that succeeds writes its time into the row with the id, and nothing else.
revoke_token-writes :
    (w : World) (actor : RequestUser) (id : String)
    → (revoke_token actor id w).0 ≡ ok tt
    → let v = (revoke_token actor id w).1 in
      (v.env ≡ w.env)
      × (v.db ≡ record w.db {
        api_tokens =
            update (λ r. r.token.id =? id) (revoke (w.env.clock (suc w.step))) w.db.api_tokens;
      })
unfolding revoke_token ◌>>=◌ get_api_token_by_id refuse_if revoke_api_token statement time_now
    modify
revoke_token-writes w actor id h = (ground arith, ground arith)

revoke-revoked : (now : ℕ) (row : TokenRow) → is_some (revoke now row).token.revoked_at ≡ true
revoke-revoked now row = elim (Option-cases row.token.revoked_at) [
  | inl unset ↦ ground arith
  | inr (t, set) ↦ ground arith
]

revoke_token-kills :
    (w : World) (actor : RequestUser) (id secret : String) (row : TokenRow)
    → token_row w.env w.db secret ≡ some row
    → row.token.id ≡ id
    → (revoke_token actor id w).0 ≡ ok tt
    → Dead secret (revoke_token actor id w).1.env (revoke_token actor id w).1.db
revoke_token-kills w actor id secret row found same h =
    let (env, wrote) = revoke_token-writes w actor id h in
    let now = w.env.clock (suc w.step) in
    record {
      row = revoke now row;
      found =
          rw (env, wrote)
            (find-update (λ r. r.token_hash =? w.env.sha256_hex secret) (λ r. r.token.id =? id)
                (revoke now) w.db.api_tokens (λ r _. refl)
              ∙ (rw (found, (eq_iff row.token.id id).1 same) refl));
      revoked = revoke-revoked now row;
    }

-- Once a token is revoked, no request that bears its secret gets past the middleware, whatever
-- calls the server has answered in between: requests, logins, logouts, setups, creations and
-- revocations of tokens, calls that create, start, stop, restart, resize and delete machines, and
-- calls that change, remove and test kernels. The secret's row is the first with its hash, and the secret is not empty.
pub revoked-shut :
    (b : Bcrypt) (sec : Security) (w : World) (actor : RequestUser) (id : String) (row : TokenRow)
    (cs : List Call) (r : Request) (u : RequestUser)
    → token_row w.env w.db (bearer_token r) ≡ some row
    → row.token.id ≡ id
    → bearer_token r ≢ ""
    → (revoke_token actor id w).0 ≡ ok tt
    → (require_auth sec r (serve_all b sec cs (revoke_token actor id w).1).1).0 ≢ ok (next u)
revoked-shut b sec w actor id row cs r u found same bears h e =
    let v = (revoke_token actor id w).1 in
    let dead =
      (serve_all-Dead b sec (bearer_token r) cs).at v
        (revoke_token-kills w actor id (bearer_token r) row found same h) in
    elim (require_auth_sound sec (serve_all b sec cs v).1 r u e) [
      | inl t ↦ Dead-no-ByToken (serve_all b sec cs v).1 _ r u dead t
      | inr s ↦ bears s.bears_none
    ]
