-- ===== src/SshKeys/Cycle.antt =====
-- A generated key can be imported.
use bap_web.Prelude.{ℕ, String, false, ◌=?◌, ◌≡◌, refl, sym, ◌∙◌, ap}
use bap_web.Text.{trim_space}
use bap_web.Model.{SshKey}
use bap_web.World.{World, M, ok, refuse_if, time_now, random_hex, ◌>>=◌}
use bap_web.World.Steps.{bind-eq-ok}
use bap_web.World.Returns.{Returns, Returns-last, Returns-pure}
use bap_web.SshKeys.{
  Crypto, KeyPair, PublicKey, GeneratedKey, generate, import_key, normalize_public_key, fresh_pair,
}

-- What the packages are documented to do: a line that was written is read as the key that it was
-- written for, and spaces around a line do not matter.
pub record Reads (crypto : Crypto) : Type 0 where
  pub written :
      (n : ℕ) (comment : String) (pair : KeyPair)
      → crypto.new_pair n comment ≡ ok pair
      → crypto.parse_authorized pair.public.authorized ≡ ok pair.public
  pub spaces :
      (line : String) → crypto.parse_authorized (trim_space line) ≡ crypto.parse_authorized line

-- A key that the packages made.
record Made (crypto : Crypto) (key : SshKey) : Type 0 where
  at : ℕ
  comment : String
  pair : KeyPair
  made : crypto.new_pair at comment ≡ ok pair
  line : key.public_key ≡ trim_space pair.public.authorized
  print : key.fingerprint ≡ pair.public.fingerprint
  kind : key.key_type ≡ pair.public.key_type

-- What follows a new pair.
fresh_pair-Returns :
    {A : Type 0} {Q : A → Type 0} (crypto : Crypto) (comment : String) (f : KeyPair → M A)
    → ((n : ℕ) (pair : KeyPair) → crypto.new_pair n comment ≡ ok pair → Returns Q (f pair))
    → Returns Q (fresh_pair crypto comment >>= f)
unfolding fresh_pair
fresh_pair-Returns crypto comment f rest = record {
  from = λ w a h.
      let (pair, e, _, k) = bind-eq-ok (fresh_pair crypto comment) f w h in
      (rest w.step pair e).from (fresh_pair crypto comment w).1 a k;
}

generate-Made :
    (crypto : Crypto) (name by : String)
    → Returns (λ g. Made crypto g.key) (generate crypto name by)
unfolding generate
generate-Made crypto name by = Returns-last _ _ λ _. fresh_pair-Returns crypto _ _ λ n pair e.
    Returns-last _ _ λ now. Returns-last _ _ λ id. Returns-pure _ (record {
      at = n;
      comment = _;
      pair = pair;
      made = e;
      line = refl;
      print = refl;
      kind = refl;
    })

-- What an import returns, where the line is read as a key.
imports :
    (crypto : Crypto) (name line by : String) (v : World) (p : PublicKey)
    → (trim_space name =? "") ≡ false
    → crypto.parse_authorized (trim_space line) ≡ ok p
    → (k : SshKey) × ((import_key crypto name line by v).0 ≡ ok k)
      × (k.name ≡ trim_space name)
      × (k.public_key ≡ trim_space p.authorized)
      × (k.fingerprint ≡ p.fingerprint)
      × (k.key_type ≡ p.key_type)
unfolding import_key normalize_public_key ◌>>=◌ refuse_if time_now random_hex
imports crypto name line by v p named read = rw (named, read) (_, refl, refl, refl, refl, refl)

-- The line of a key that was generated can be imported, under any name that is not empty and at any
-- time: this succeeds, and the imported key has the line, the fingerprint and the type of the
-- generated one. The packages are taken to read a line that they wrote as the key that they wrote it
-- for, and to pay no attention to spaces around it.
pub generate-imported :
    (crypto : Crypto) (reads : Reads crypto) (name by other by' : String) (w v : World)
    (g : GeneratedKey)
    → (generate crypto name by w).0 ≡ ok g
    → (trim_space other =? "") ≡ false
    → (k : SshKey) × ((import_key crypto other g.key.public_key by' v).0 ≡ ok k)
      × (k.name ≡ trim_space other)
      × (k.public_key ≡ g.key.public_key)
      × (k.fingerprint ≡ g.key.fingerprint)
      × (k.key_type ≡ g.key.key_type)
generate-imported crypto reads name by other by' w v g h named =
    let m = (generate-Made crypto name by).from w g h in
    let line = m.pair.public.authorized in
    let read =
      reads.spaces g.key.public_key
      ∙ ap crypto.parse_authorized m.line
      ∙ reads.spaces line
      ∙ reads.written m.at m.comment m.pair m.made in
    let (k, done, title, text, print, kind) =
      imports crypto other g.key.public_key by' v m.pair.public named read in
    (k, done, title, text ∙ sym m.line, print ∙ sym m.print, kind ∙ sym m.kind)
