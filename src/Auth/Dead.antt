-- ===== src/Auth/Dead.antt =====
-- A secret whose token is revoked: what the calls of the server do to its row.
use mathlib.Core.Option
use bap_web.Prelude.{
  ℕ, String, Bool, true, some, ◌≡◌, ◌=?◌, is_some, arith, Bool-cases, inl, inr, refl, ◌∙◌,
  if◌then◌else◌, ap, Option-cases,
}
use bap_web.Model.{User, Session, ApiToken}
use bap_web.Store.Db.{Db, TokenRow, AuditEvent}
use bap_web.Store.Table.{update}
use bap_web.Store.Table.Laws.{find-update, find-append}
use bap_web.Store.Access.{
  create_user, create_session, touch_session, delete_session, create_api_token, touch_api_token,
  revoke_api_token, audit, revoke,
}
use bap_web.Store.Keeps.{query_rules, Keeps-refuse_clash}
use bap_web.World.{Env, modify}
use bap_web.World.Keeps.{
  Keeps, Keeps-gets, Keeps-bind, Keeps-time_now, Keeps-statement, Keeps-modify,
}
use bap_web.Auth.Token.Use.{token_row}

-- The row that the secret finds is there, and its token is revoked.
pub record Dead (secret : String) (env : Env) (d : Db) : Type 0 where
  pub row : TokenRow
  pub found : token_row env d secret ≡ some row
  pub revoked : is_some row.token.revoked_at ≡ true

Dead-update :
    (secret : String) (env : Env) (d d' : Db) (p : TokenRow → Bool) (f : TokenRow → TokenRow)
    → d'.api_tokens ≡ update p f d.api_tokens
    → ((r : TokenRow) → (f r).token_hash ≡ r.token_hash)
    → ((r : TokenRow) → is_some r.token.revoked_at ≡ true → is_some (f r).token.revoked_at ≡ true)
    → Dead secret env d
    → Dead secret env d'
Dead-update secret env d d' p f wrote same keeps h = record {
  row = if p h.row then f h.row else h.row;
  found = rw wrote (
      find-update (λ r. r.token_hash =? env.sha256_hex secret) p f d.api_tokens
        (λ r _. rw (same r) refl)
      ∙ ap (Option.map (λ r. if p r then f r else r)) h.found);
  revoked = elim (Bool-cases (p h.row)) [
    | inl hit ↦ rw hit (keeps h.row h.revoked)
    | inr miss ↦ rw miss h.revoked
  ];
}

stays-revoked :
    (now : ℕ) (r : TokenRow)
    → is_some r.token.revoked_at ≡ true
    → is_some (revoke now r).token.revoked_at ≡ true
stays-revoked now r h = elim (Option-cases r.token.revoked_at) [
  | inl unset ↦ absurd (ground arith)
  | inr (t, set) ↦ ground arith
]

module _ (secret : String) where
  pub touch_api_token-Dead : (id : String) → Keeps (Dead secret) (touch_api_token id)
  unfolding touch_api_token
  touch_api_token-Dead id = Keeps-bind _ _ Keeps-time_now λ now.
      Keeps-bind _ _ Keeps-statement
        λ _. Keeps-modify _ λ env d h. Dead-update secret env d _ _ _ refl (λ r. refl) (λ r k. k) h

  pub revoke_api_token-Dead : (id : String) → Keeps (Dead secret) (revoke_api_token id)
  unfolding revoke_api_token
  revoke_api_token-Dead id = Keeps-bind _ _ Keeps-time_now λ now.
      Keeps-bind _ _ Keeps-statement λ _.
        Keeps-modify _ λ env d h.
          Dead-update secret env d _ _ (revoke now) refl (λ r. refl) (stays-revoked now) h

  pub create_api_token-Dead :
      (t : ApiToken) (hash : String) → Keeps (Dead secret) (create_api_token t hash)
  unfolding create_api_token
  create_api_token-Dead t hash = Keeps-bind _ _ Keeps-statement λ _.
      Keeps-bind _ _ (Keeps-gets _) λ rows. Keeps-bind _ _ (Keeps-refuse_clash _) λ _.
        Keeps-modify _ λ env d h. record {
          row = h.row;
          found =
              find-append (λ r. r.token_hash =? env.sha256_hex secret) d.api_tokens _ h.row h.found;
          revoked = h.revoked;
        }

  -- What is written to the other tables.
  pub elsewhere :
      (f : Db → Db) → ((d : Db) → (f d).api_tokens ≡ d.api_tokens) → Keeps (Dead secret) (modify f)
  elsewhere f same =
      Keeps-modify f
        λ env d h. record { row = h.row; found = rw (same d) h.found; revoked = h.revoked }

  pub create_user-Dead : (u : User) → Keeps (Dead secret) (create_user u)
  unfolding create_user
  create_user-Dead u = search (query_rules, elsewhere)

  pub create_session-Dead : (sess : Session) → Keeps (Dead secret) (create_session sess)
  unfolding create_session
  create_session-Dead sess = search (query_rules, elsewhere)

  pub touch_session-Dead : (id : String) (t : ℕ) → Keeps (Dead secret) (touch_session id t)
  unfolding touch_session
  touch_session-Dead id t = search (query_rules, elsewhere)

  pub delete_session-Dead : (id : String) → Keeps (Dead secret) (delete_session id)
  unfolding delete_session
  delete_session-Dead id = search (query_rules, elsewhere)

  pub audit-Dead : (e : AuditEvent) → Keeps (Dead secret) (audit e)
  unfolding audit
  audit-Dead e = search (query_rules, elsewhere)

pub ruleset dead_rules = (
  query_rules, touch_api_token-Dead, revoke_api_token-Dead, create_api_token-Dead, elsewhere,
  create_user-Dead, create_session-Dead, touch_session-Dead, delete_session-Dead, audit-Dead,
)
