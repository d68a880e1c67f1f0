-- ===== src/Model/Access.antt =====
-- internal/model/model.go: users, sessions, API tokens and SSH keys.
use bap_web.Prelude.{ℕ, String, Bool, Option}

pub record User : Type 0 where
  pub id : String
  pub username : String
  pub password_hash : String
  pub is_admin : Bool
  pub created_at : ℕ

pub record Session : Type 0 where
  pub id : String
  pub user_id : String
  pub csrf_token : String
  pub created_at : ℕ
  pub last_seen_at : ℕ
  pub expires_at : ℕ

pub record ApiToken : Type 0 where
  pub id : String
  pub name : String
  pub prefix : String
  pub is_admin : Bool
  pub owner_user_id : String
  pub owner_username : String
  pub created_by : String
  pub created_at : ℕ
  pub last_used_at : Option ℕ
  pub expires_at : Option ℕ
  pub revoked_at : Option ℕ

pub record SshKey : Type 0 where
  pub id : String
  pub name : String
  pub public_key : String
  pub fingerprint : String
  pub key_type : String
  pub created_by : String
  pub created_at : ℕ
  pub last_used_at : Option ℕ
