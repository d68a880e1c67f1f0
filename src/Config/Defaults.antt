-- ===== src/Config/Defaults.antt =====
-- A configuration that is validated is complete.
use bap_web.Prelude.{
  ℕ, zero, suc, ℤ, pos, is_zero, String, Bool, true, false, not, ◌||◌, ◌=?◌, ◌≡◌, ◌≢◌, [], ◌∷◌,
  refl, sym, ap, ◌∙◌, arith, eq_iff, Bool-cases, inl, inr, if◌then◌else◌,
}
use mathlib.Core.Path.{subst}
use Prim.Native.Char.{Char}
use Prim.Native.String
use Prim.Native.String.append
use bap_web.Text.{concat}
use bap_web.Errors.{Error}
use bap_web.World.{ok, err}
use bap_web.World.Keeps.{ok-injective}
use bap_web.Config.{Config, or_text, or_number, or_port, is_unset, completed, validate}

or_text-kept : (a b : String) → or_text (or_text a b) b ≡ or_text a b
unfolding or_text
or_text-kept a b = ground arith

or_text-set : (a b : String) → (b =? "") ≡ false → or_text a b ≢ ""
unfolding or_text
or_text-set a b h e = ground (arith, eq_iff (or_text a b) "")

or_number-kept : (a b : ℤ) → or_number (or_number a b) b ≡ or_number a b
unfolding or_number
or_number-kept a b = ground arith

or_port-kept : (a b : ℕ) → or_port (or_port a b) b ≡ or_port a b
unfolding or_port
or_port-kept zero zero = refl
or_port-kept zero (suc b) = refl
or_port-kept (suc a) b = refl

-- The texts, ports, limits and timeouts that the program relies on.
pub record Complete (c : Config) : Type 0 where
  pub address : c.server.bind_address ≢ ""
  pub port : c.server.port ≢ 0
  pub driver : c.database.driver ≡ "sqlite"
  pub dsn : c.database.dsn ≢ ""
  pub metadata_address : c.server.metadata_bind_address ≢ ""
  pub metadata_port : c.server.metadata_port ≢ 0
  pub network_mode : c.network.default_network_mode ≢ ""
  pub build_dir : c.images.build_dir ≢ ""
  pub hook_dir : c.images.hook_dir ≢ ""
  pub image_limit : c.images.max_base_image_mib ≢ pos 0
  pub hook_limit : c.images.max_hook_bytes ≢ pos 0
  pub build_time : c.images.build_timeout ≢ pos 0
  pub rootfs_limit : c.images.max_vm_rootfs_mib ≢ pos 0
  pub package_limit : c.images.max_packages ≢ pos 0
  pub kernel_limit : c.kernels.max_kernel_bytes ≢ pos 0
  pub test_time : c.kernels.test_timeout ≢ pos 0
  pub scan_time : c.kernels.ci_scan_timeout ≢ pos 0
  pub import_time : c.kernels.ci_import_timeout ≢ pos 0
  pub kernel_source : c.kernels.firecracker_ci_base_url ≢ ""

clash : {A : Type 0} → false ≡ true → A
clash e = cc

or_number-set : (a b : ℤ) → is_zero b ≡ false → or_number a b ≢ pos 0
unfolding or_number
or_number-set a b h e = elim (Bool-cases (is_zero a)) [
  | inl unset ↦ let e' : b ≡ pos 0 = rw unset at e in clash (sym h ∙ ap is_zero e')
  | inr given ↦ let e' : a ≡ pos 0 = rw given at e in clash (sym given ∙ ap is_zero e')
]

suc-unset : (n : ℕ) → suc n ≡ 0 → ⊥
suc-unset n e = omega arith

or_port-set : (a b : ℕ) → is_unset b ≡ false → or_port a b ≢ 0
unfolding or_port
or_port-set zero zero h e = cc
or_port-set zero (suc b) h e = suc-unset b e
or_port-set (suc a) b h e = suc-unset a e

begun_text : (c : Char) (s : String) → (String.◌∷◌ c s =? "") ≡ false
begun_text c s = elim (Bool-cases (String.◌∷◌ c s =? "")) [
  | inl empty ↦ let e : String.◌∷◌ c s ≡ "" = (eq_iff _ _).0 empty in cc
  | inr other ↦ other
]

-- A text with something behind it is not empty.
longer_text : (s t : String) → (t =? "") ≡ false → (concat (s ∷ t ∷ []) =? "") ≡ false
unfolding concat
longer_text String.[] String.[] h = cc
longer_text String.[] (String.◌∷◌ d t) h =
    ap (λ x. x =? "")
      ((λ i. append.nil (String.◌++◌ (String.◌∷◌ d t) "") i) ∙ (λ i. append.cons d t "" i))
    ∙ begun_text d (String.◌++◌ t "")
longer_text (String.◌∷◌ c s) t h =
    ap (λ x. x =? "") (λ i. append.cons c s (String.◌++◌ t "") i) ∙ begun_text c _

-- Three tests that have passed.
passed :
    (a b d : Bool) (x y z : Error) (c c' : Config)
    → (if a then err x else if b then err y else if d then err z else ok c) ≡ ok c'
    → (a ≡ false) × (b ≡ false) × (d ≡ false) × (c ≡ c')
passed true b d x y z c c' h = cc
passed false true d x y z c c' h = cc
passed false false true x y z c c' h = cc
passed false false false x y z c c' h = (refl, refl, refl, ok-injective h)

facts :
    (c c' : Config)
    → validate c ≡ ok c'
    → ((c.server.bind_address =? "" || is_unset c.server.port) ≡ false)
      × ((c.database.driver =? "" || c.database.dsn =? "") ≡ false)
      × (not (c.database.driver =? "sqlite") ≡ false)
      × (completed c ≡ c')
unfolding validate
facts c c' h = passed _ _ _ _ _ _ (completed c) c' h

completed-Complete :
    (c : Config)
    → (c.server.bind_address =? "" || is_unset c.server.port) ≡ false
    → (c.database.driver =? "" || c.database.dsn =? "") ≡ false
    → not (c.database.driver =? "sqlite") ≡ false
    → Complete (completed c)
unfolding completed
completed-Complete c address database driver = record {
  address = λ e. ground (arith, eq_iff c.server.bind_address "");
  port = λ e. let unset : is_unset c.server.port ≡ true = ap is_unset e in ground arith;
  driver = ground (arith, eq_iff c.database.driver "sqlite");
  dsn = λ e. ground (arith, eq_iff c.database.dsn "");
  metadata_address = or_text-set c.server.metadata_bind_address "0.0.0.0" refl;
  metadata_port = or_port-set c.server.metadata_port 18080 refl;
  network_mode = or_text-set c.network.default_network_mode "routed_ptp" refl;
  build_dir = or_text-set c.images.build_dir _ (longer_text c.paths.state_dir "/image-builds" refl);
  hook_dir = or_text-set c.images.hook_dir _ (longer_text c.paths.state_dir "/image-hooks" refl);
  image_limit = or_number-set c.images.max_base_image_mib (pos 32768) refl;
  hook_limit = or_number-set c.images.max_hook_bytes (pos 262144) refl;
  build_time = or_number-set c.images.build_timeout (pos 2700000000000) refl;
  rootfs_limit = or_number-set c.images.max_vm_rootfs_mib (pos 65536) refl;
  package_limit = or_number-set c.images.max_packages (pos 100) refl;
  kernel_limit = or_number-set c.kernels.max_kernel_bytes (pos 536870912) refl;
  test_time = or_number-set c.kernels.test_timeout (pos 300000000000) refl;
  scan_time = or_number-set c.kernels.ci_scan_timeout (pos 15000000000) refl;
  import_time = or_number-set c.kernels.ci_import_timeout (pos 120000000000) refl;
  kernel_source = or_text-set c.kernels.firecracker_ci_base_url _ refl;
}

-- To complete a configuration twice is to complete it once.
completed-twice : (c : Config) → completed (completed c) ≡ completed c
unfolding completed
completed-twice c = simp (or_text-kept, or_number-kept, or_port-kept)

accepted :
    (c : Config)
    → (c.server.bind_address =? "" || is_unset c.server.port) ≡ false
    → (c.database.driver =? "" || c.database.dsn =? "") ≡ false
    → not (c.database.driver =? "sqlite") ≡ false
    → validate (completed c) ≡ ok (completed c)
unfolding validate completed
accepted c address database driver = rw (address, database, driver) (ap ok (completed-twice c))

-- A configuration that `Validate` accepts has an address and a port for itself and for the metadata,
-- an sqlite database, the directories of the images, a mode for networks and a source of kernels, and
-- no limit and no timeout of images or kernels is zero. To validate it again accepts it as it is.
pub validate-Complete : (c c' : Config) → validate c ≡ ok c' → Complete c' × (validate c' ≡ ok c')
unfolding validate
validate-Complete c c' h =
    let (address, database, driver, same) = facts c c' h in
    let again : validate (completed c) ≡ ok (completed c) = accepted c address database driver in
    subst (λ d. Complete d × (validate d ≡ ok d)) same
      (completed-Complete c address database driver, again)
