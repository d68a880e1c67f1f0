-- ===== src/SshKeys/Examples.antt =====
-- A key that is generated and imported with packages that know one key.
use bap_web.Prelude.{◌≡◌, refl, ap, none, false, ◌=?◌}
use bap_web.Text.{trim_space}
use bap_web.Model.{SshKey}
use bap_web.World.{Result, ok}
use bap_web.World.Keeps.{ok-injective}
use bap_web.Lifecycle.Fixtures.{small}
use bap_web.SshKeys.{Crypto, PublicKey, KeyPair, GeneratedKey, generate, import_key}
use bap_web.SshKeys.Cycle.{Reads, generate-imported}

abbrev only_key : PublicKey
only_key = record {
  authorized = "ssh-ed25519 AAAA\n";
  fingerprint = "SHA256:x";
  key_type = "ssh-ed25519";
}

abbrev only_pair : KeyPair
only_pair = record { public = only_key; pem = "PEM" }

abbrev one_key : Crypto
one_key = record { new_pair = λ n comment. ok only_pair; parse_authorized = λ line. ok only_key }

one_key-Reads : Reads one_key
one_key-Reads = record {
  written = λ n comment pair e. ap (λ (p : KeyPair). ok p.public) (ok-injective e);
  spaces = λ line. refl;
}

abbrev laptop : GeneratedKey
laptop = record {
  key = record {
    id = "ab";
    name = "laptop";
    public_key = "ssh-ed25519 AAAA";
    fingerprint = "SHA256:x";
    key_type = "ssh-ed25519";
    created_by = "ann";
    created_at = 1;
    last_used_at = none;
  };
  private_key = "PEM";
}

generates : (generate one_key "laptop " "ann" small).0 ≡ ok laptop
unfolding generate bap_web.World.◌>>=◌ bap_web.World.refuse_if trim_space bap_web.SshKeys.fresh_pair
    bap_web.World.time_now bap_web.World.random_hex
generates = refl

named : (trim_space "desk" =? "") ≡ false
unfolding trim_space
named = refl

generate-imported_example :
    (k : SshKey) × ((import_key one_key "desk" "ssh-ed25519 AAAA" "bob" small).0 ≡ ok k)
    × (k.name ≡ trim_space "desk")
    × (k.public_key ≡ "ssh-ed25519 AAAA")
    × (k.fingerprint ≡ "SHA256:x")
    × (k.key_type ≡ "ssh-ed25519")
generate-imported_example =
    generate-imported one_key one_key-Reads "laptop " "ann" "desk" "bob" small small laptop
      generates named
