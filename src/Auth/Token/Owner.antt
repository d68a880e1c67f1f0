-- ===== src/Auth/Token/Owner.antt =====
-- Who may revoke a token, and that the status shown agrees with what is accepted.
use bap_web.Prelude.{
  ℕ, String, true, false, some, ◌≡◌, ◌≢◌, ◌⊎◌, ◌↔◌, inl, inr, ◌=?◌, find, arith, eq_iff,
  Option-cases, Bool-cases,
}
use bap_web.Model.{ApiToken}
use bap_web.Store.Db.{TokenRow}
use bap_web.Store.Access.{get_api_token_by_id, revoke_api_token}
use bap_web.World.{World, ok, ◌>>=◌, statement, time_now, refuse_if, modify}
use bap_web.Auth.Request.{RequestUser}
use bap_web.Auth.Token.{revoke_token, api_token_status, is_dead, TokenStatus}

-- A revocation that succeeds was ordered by an admin, or by the user who owns the token.
pub revoke_token-authorized :
    (w : World) (actor : RequestUser) (id : String)
    → (revoke_token actor id w).0 ≡ ok tt
    → (row : TokenRow) × (find (λ r. r.token.id =? id) w.db.api_tokens ≡ some row)
      × ((actor.is_admin ≡ true)
          ⊎ ((row.token.owner_user_id ≢ "") × (row.token.owner_user_id ≡ actor.id)))
unfolding revoke_token ◌>>=◌ get_api_token_by_id refuse_if revoke_api_token statement time_now
    modify
revoke_token-authorized w actor id h =
    elim (Option-cases (find (λ r. r.token.id =? id) w.db.api_tokens)) [
      | inl missing ↦ absurd (ground arith)
      | inr (row, found) ↦ (
        row,
        found,
        elim (Bool-cases actor.is_admin) [
          | inl admin ↦ inl admin
          | inr plain ↦ inr (
            (λ e. ground (arith, eq_iff row.token.owner_user_id "")),
            ground (arith, eq_iff row.token.owner_user_id actor.id),
          )
        ],
      )
    ]

-- The list shows a token as active exactly if the token is accepted and its last moment is not
-- reached: a token shown as expired is still accepted at that one moment, `expires_at` itself.
pub api_token_status-active :
    (t : ApiToken) (now : ℕ)
    → (api_token_status t now ≡ TokenStatus.active)
      ↔ ((is_dead t now ≡ false) × (t.expires_at ≢ some now))
unfolding api_token_status is_dead
api_token_status-active t now = elim (Option-cases t.expires_at) [
  | inl never ↦ (ground arith, ground arith)
  | inr (last, set) ↦ (ground arith, ground arith)
]
