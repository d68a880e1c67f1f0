-- ===== src/SshKeys.antt =====
-- internal/sshkeys/sshkeys.go: keys that are made or imported. The packages crypto/ed25519 and
-- golang.org/x/crypto/ssh are the parameter `Crypto`.
pub mod Cycle
mod Examples
use bap_web.Prelude.{ℕ, suc, String, Bool, Option, none, List, [], ◌∷◌, ◌=?◌}
use bap_web.Text.{concat, trim_space}
use bap_web.Model.{SshKey}
use bap_web.Errors.{Error, message}
use bap_web.World.{
  M, World, Result, ok, err, pure, raise, refuse_if, time_now, random_hex, ◌>>=◌, ◌>>◌,
}

-- What the packages say of a public key.
pub record PublicKey : Type 0 where
  pub authorized : String  -- `ssh.MarshalAuthorizedKey`
  pub fingerprint : String  -- `ssh.FingerprintSHA256`
  pub key_type : String  -- `Type`

pub record KeyPair : Type 0 where
  pub public : PublicKey
  pub pem : String  -- `pem.EncodeToMemory` of `ssh.MarshalPrivateKey`

-- The packages: a new pair with a comment, at each step of the world, and `ssh.ParseAuthorizedKey`.
pub record Crypto : Type 0 where
  pub new_pair : ℕ → String → Result KeyPair
  pub parse_authorized : String → Result PublicKey

-- `GeneratedKey`
pub record GeneratedKey : Type 0 where
  pub key : SshKey
  pub private_key : String

abbrev pub new_key : String → String → String → String → String → String → ℕ → SshKey
new_key id name public_key fingerprint key_type created_by now = record {
  id = id;
  name = name;
  public_key = public_key;
  fingerprint = fingerprint;
  key_type = key_type;
  created_by = created_by;
  created_at = now;
  last_used_at = none;
}

module _ (crypto : Crypto) where
  -- The calls of the packages that make a pair.
  unfoldable pub fresh_pair : String → M KeyPair
  fresh_pair comment w = (crypto.new_pair w.step comment, record w { step = suc w.step })

  -- `Generate`
  unfoldable pub generate : String → String → M GeneratedKey
  generate text created_by = do
    let name = trim_space text
    refuse_if (name =? "") (Error.plain "key name is required")
    pair ← fresh_pair (concat ("bap-web:" ∷ name ∷ []))
    now ← time_now
    id ← random_hex 8
    pure (record {
      key =
          new_key id name (trim_space pair.public.authorized) pair.public.fingerprint
            pair.public.key_type created_by now;
      private_key = pair.pem;
    })

  abbrev pub normalized : Result PublicKey → Result (String × String × String)
  normalized (ok p) = ok (trim_space p.authorized, p.fingerprint, p.key_type)
  normalized (err e) = err (Error.plain (concat ("invalid SSH public key: " ∷ message e ∷ [])))

  -- `NormalizePublicKey`
  unfoldable pub normalize_public_key : String → Result (String × String × String)
  normalize_public_key text = normalized (crypto.parse_authorized (trim_space text))

  abbrev pub imported : String → String → Result (String × String × String) → M SshKey
  imported name created_by (err e) = raise e
  imported name created_by (ok (line, fingerprint, key_type)) = do
    id ← random_hex 8
    now ← time_now
    pure (new_key id name line fingerprint key_type created_by now)

  -- `Import`
  unfoldable pub import_key : String → String → String → M SshKey
  import_key text public_key created_by = do
    let name = trim_space text
    refuse_if (name =? "") (Error.plain "key name is required")
    imported name created_by (normalize_public_key public_key)
