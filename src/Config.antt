-- ===== src/Config.antt =====
-- internal/config/config.go: the configuration, and `Validate`. Directories are as `filepath.Clean`
-- leaves them. A duration is its nanoseconds. SecurityConfig stands with the requests that it is for.
pub mod Defaults
mod Examples
use bap_web.Prelude.{
  ℕ, zero, suc, ℤ, pos, negsuc, is_zero, String, Bool, true, false, not, ◌||◌, List, [], ◌∷◌, ◌=?◌,
  if◌then◌else◌,
}
use bap_web.Text.{concat}
use bap_web.Errors.{Error}
use bap_web.World.{Result, ok, err}

pub record ServerConfig : Type 0 where
  pub bind_address : String
  pub port : ℕ
  pub metadata_bind_address : String
  pub metadata_port : ℕ
  pub static_dir : String
  pub trusted_hosts : List String
  pub allowed_origins : List String

pub record DatabaseConfig : Type 0 where
  pub driver : String
  pub dsn : String

pub record Paths : Type 0 where
  pub state_dir : String
  pub log_dir : String
  pub key_dir : String
  pub runtime_dir : String
  pub image_dir : String
  pub kernel_dir : String
  pub kernel_image : String
  pub base_image_dir : String
  pub base_rootfs : String
  pub jailer_base_dir : String
  pub firecracker_bin : String
  pub jailer_bin : String

pub record NetworkConfig : Type 0 where
  pub backend : String
  pub vm_cidr : String
  pub ssh_port_range : String
  pub default_network_mode : String
  pub protected_host_cidrs : List String

pub record ImageConfig : Type 0 where
  pub build_dir : String
  pub hook_dir : String
  pub max_base_image_mib : ℤ
  pub max_vm_rootfs_mib : ℤ
  pub max_hook_bytes : ℤ
  pub max_packages : ℤ
  pub build_timeout : ℤ
  pub allowed_git_hosts : List String

pub record KernelConfig : Type 0 where
  pub max_kernel_bytes : ℤ
  pub test_timeout : ℤ
  pub ci_scan_timeout : ℤ
  pub ci_import_timeout : ℤ
  pub firecracker_ci_base_url : String

pub record Config : Type 0 where
  pub server : ServerConfig
  pub database : DatabaseConfig
  pub paths : Paths
  pub network : NetworkConfig
  pub images : ImageConfig
  pub kernels : KernelConfig

-- `if value == "" { value = fallback }`
unfoldable pub or_text : String → String → String
or_text value fallback = if value =? "" then fallback else value

-- `if value == 0 { value = fallback }`
unfoldable pub or_number : ℤ → ℤ → ℤ
or_number value fallback = if is_zero value then fallback else value

unfoldable pub or_port : ℕ → ℕ → ℕ
or_port zero fallback = fallback
or_port (suc n) fallback = suc n

abbrev pub is_unset : ℕ → Bool
is_unset zero = true
is_unset (suc n) = false

-- What `Validate` puts where nothing is set.
unfoldable pub completed : Config → Config
completed c = record c {
  server = record c.server {
    metadata_bind_address = or_text c.server.metadata_bind_address "0.0.0.0";
    metadata_port = or_port c.server.metadata_port 18080;
  };
  network = record c.network {
    default_network_mode = or_text c.network.default_network_mode "routed_ptp";
  };
  images = record c.images {
    build_dir = or_text c.images.build_dir (concat (c.paths.state_dir ∷ "/image-builds" ∷ []));
    hook_dir = or_text c.images.hook_dir (concat (c.paths.state_dir ∷ "/image-hooks" ∷ []));
    max_base_image_mib = or_number c.images.max_base_image_mib (pos 32768);
    max_vm_rootfs_mib = or_number c.images.max_vm_rootfs_mib (pos 65536);
    max_hook_bytes = or_number c.images.max_hook_bytes (pos 262144);
    max_packages = or_number c.images.max_packages (pos 100);
    build_timeout = or_number c.images.build_timeout (pos 2700000000000);
  };
  kernels = record c.kernels {
    max_kernel_bytes = or_number c.kernels.max_kernel_bytes (pos 536870912);
    test_timeout = or_number c.kernels.test_timeout (pos 300000000000);
    ci_scan_timeout = or_number c.kernels.ci_scan_timeout (pos 15000000000);
    ci_import_timeout = or_number c.kernels.ci_import_timeout (pos 120000000000);
    firecracker_ci_base_url =
        or_text c.kernels.firecracker_ci_base_url "https://s3.amazonaws.com/spec.ccfc.min";
  };
}

-- `Validate`, with the configuration that it leaves where it returns no error.
unfoldable pub validate : Config → Result Config
validate c =
    if c.server.bind_address =? "" || is_unset c.server.port
    then err (Error.plain "server bind_address and port are required")
    else if c.database.driver =? "" || c.database.dsn =? ""
    then err (Error.plain "database driver and dsn are required")
    else if not (c.database.driver =? "sqlite")
    then err (
        Error.plain
          (concat ("only sqlite is implemented in v1, got \"" ∷ c.database.driver ∷ "\"" ∷ [])))
    else ok (completed c)
