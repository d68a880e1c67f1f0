-- ===== src/Store/Access.antt =====
-- internal/store/store.go: users, sessions, API tokens and SSH keys.
use bap_web.Prelude.{
  ℕ, String, Bool, Option, none, some, List, [], ◌∷◌, ◌++◌, any, find, ltb, ◌&&◌, ◌=?◌, length,
  if◌then◌else◌,
}
use bap_web.Model.{User, Session, ApiToken, SshKey}
use bap_web.Store.Db.{TokenRow, AuditEvent}
use bap_web.Store.Table.{update, delete, count}
use bap_web.Store.Vms.{refuse_clash}
use bap_web.Store.Networks.{assigned}
use bap_web.World.{M, gets, ◌>>=◌, ◌>>◌, statement, time_now, modify, refuse_if}

unfoldable pub has_users : M Bool
has_users = do statement; gets (λ w. ltb 0 (length w.db.users))

unfoldable pub create_user : User → M (Unit {0})
create_user u = do
  statement
  rows ← gets (λ w. w.db.users)
  refuse_clash (
      if any (λ r. r.id =? u.id) rows
      then some "users.id"
      else if any (λ r. r.username =? u.username) rows
      then some "users.username"
      else none)
  modify (λ d. record d { users = d.users ++ u ∷ [] })

unfoldable pub user_by_username : String → M (Option User)
user_by_username username = do statement; gets (λ w. find (λ r. r.username =? username) w.db.users)

unfoldable pub user_by_id : String → M (Option User)
user_by_id id = do statement; gets (λ w. find (λ r. r.id =? id) w.db.users)

unfoldable pub create_session : Session → M (Unit {0})
create_session sess = do
  statement
  rows ← gets (λ w. w.db.sessions)
  refuse_clash (if any (λ r. r.id =? sess.id) rows then some "sessions.id" else none)
  modify (λ d. record d { sessions = d.sessions ++ sess ∷ [] })

unfoldable pub session_by_id : String → M (Option Session)
session_by_id id = do statement; gets (λ w. find (λ r. r.id =? id) w.db.sessions)

unfoldable pub touch_session : String → ℕ → M (Unit {0})
touch_session id expires = do
  now ← time_now
  statement
  modify (λ d. record d {
    sessions =
        update (λ r. r.id =? id) (λ r. record r { last_seen_at = now; expires_at = expires })
          d.sessions;
  })

unfoldable pub delete_session : String → M (Unit {0})
delete_session id = do
  statement
  modify (λ d. record d { sessions = delete (λ r. r.id =? id) d.sessions })

-- The index `api_tokens_owner_name_idx` makes an owner's token names unique.
unfoldable pub create_api_token : ApiToken → String → M (Unit {0})
create_api_token token token_hash = do
  statement
  rows ← gets (λ w. w.db.api_tokens)
  refuse_clash (
      if any (λ r. r.token.id =? token.id) rows
      then some "api_tokens.id"
      else if any (λ r. r.token_hash =? token_hash) rows
      then some "api_tokens.token_hash"
      else if any (λ r. r.token.owner_user_id =? token.owner_user_id && r.token.name =? token.name)
          rows
      then some "api_tokens.owner_user_id, api_tokens.name"
      else none)
  modify (λ d. record d {
    api_tokens = d.api_tokens ++ (record { token = token; token_hash = token_hash }) ∷ [];
  })

-- `COALESCE(u.username, '')` of the LEFT JOIN with the owner's row.
abbrev pub owner_username : Option User → String
owner_username none = ""
owner_username (some u) = u.username

-- The row that `apiTokenSelectSQL` selects.
abbrev pub selected : List User → Option TokenRow → Option ApiToken
selected users none = none
selected users (some r) = some (record r.token {
  owner_username = owner_username (find (λ u. u.id =? r.token.owner_user_id) users);
})

unfoldable pub get_api_token_by_id : String → M (Option ApiToken)
get_api_token_by_id id = do
  statement
  gets (λ w. selected w.db.users (find (λ r. r.token.id =? id) w.db.api_tokens))

unfoldable pub get_api_token_by_hash : String → M (Option ApiToken)
get_api_token_by_hash token_hash = do
  statement
  gets (λ w. selected w.db.users (find (λ r. r.token_hash =? token_hash) w.db.api_tokens))

unfoldable pub touch_api_token : String → M (Unit {0})
touch_api_token id = do
  now ← time_now
  statement
  modify (λ d. record d {
    api_tokens =
        update (λ r. r.token.id =? id)
          (λ r. record r { token = record r.token { last_used_at = some now } }) d.api_tokens;
  })

-- `COALESCE(revoked_at, ?)`: the first revocation's time stays.
abbrev pub coalesce : Option ℕ → ℕ → Option ℕ
coalesce none now = some now
coalesce (some t) now = some t

abbrev pub revoke : ℕ → TokenRow → TokenRow
revoke now r = record r { token = record r.token { revoked_at = coalesce r.token.revoked_at now } }

unfoldable pub revoke_api_token : String → M (Unit {0})
revoke_api_token id = do
  now ← time_now
  statement
  modify (λ d. record d { api_tokens = update (λ r. r.token.id =? id) (revoke now) d.api_tokens })

unfoldable pub get_ssh_key : String → M (Option SshKey)
get_ssh_key id = do statement; gets (λ w. find (λ r. r.id =? id) w.db.ssh_keys)

-- A key that a virtual machine uses stays.
unfoldable pub delete_ssh_key : String → M (Unit {0})
delete_ssh_key id = do
  statement
  used ← gets (λ w. count (λ r. r.ssh_key_id =? id) w.db.vms)
  refuse_if (ltb 0 used) (assigned "SSH key" used)
  statement
  modify (λ d. record d { ssh_keys = delete (λ r. r.id =? id) d.ssh_keys })

unfoldable pub touch_ssh_key : String → M (Unit {0})
touch_ssh_key id = do
  now ← time_now
  statement
  modify (λ d. record d {
    ssh_keys = update (λ r. r.id =? id) (λ r. record r { last_used_at = some now }) d.ssh_keys;
  })

-- `Audit`: an event without its time, which is the statement's.
unfoldable pub audit : AuditEvent → M (Unit {0})
audit event = do
  now ← time_now
  statement
  modify
      (λ d. record d { audit_events = d.audit_events ++ (record event { created_at = now }) ∷ [] })
