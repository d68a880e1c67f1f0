-- ===== src/Lifecycle/Fixtures.antt =====
-- A configuration, a machine and a host for the tests.
use bap_web.Prelude.{pos, false, none, some, [], ◌∷◌}
use bap_web.Model.{Vm, VmState, Kernel, BaseImage}
use bap_web.Config.{Config}
use bap_web.Errors.{Error}
use bap_web.Store.Db.{empty}
use bap_web.World.{Env, World, ok, err}

abbrev pub calm : Env
calm = record {
  clock = λ n. n;
  sql = λ n. none;
  outcome = λ n a. none;
  output = λ n words. ok "default via 10.0.0.1 dev eth0";
  guest = λ n user ip command. err (Error.plain "no guest");
  file_size = λ n path. ok (some 1048576);
  file_text = λ n path. ok "";
  hex = λ n bytes. "ab";
  created_before = λ a b. false;
  sha256_hex = λ s. s;
  parse_time = λ s. none;
}

abbrev pub site : Config
site = record {
  server = record {
    bind_address = "127.0.0.1";
    port = 8080;
    metadata_bind_address = "";
    metadata_port = 8081;
    static_dir = "/static";
    trusted_hosts = [];
    allowed_origins = [];
  };
  database = record { driver = "sqlite"; dsn = "/state/db" };
  paths = record {
    state_dir = "/state";
    log_dir = "/log";
    key_dir = "/keys";
    runtime_dir = "/run";
    image_dir = "/images";
    kernel_dir = "/kernels";
    kernel_image = "/kernels/k";
    base_image_dir = "/base";
    base_rootfs = "/base/rootfs";
    jailer_base_dir = "/jail";
    firecracker_bin = "/bin/firecracker";
    jailer_bin = "/bin/jailer";
  };
  network = record {
    backend = "nftables";
    vm_cidr = "172.30.0.0/24";
    ssh_port_range = "2200-2210";
    default_network_mode = "routed_ptp";
    protected_host_cidrs = [];
  };
  images = record {
    build_dir = "";
    hook_dir = "";
    max_base_image_mib = pos 0;
    max_vm_rootfs_mib = pos 65536;
    max_hook_bytes = pos 0;
    max_packages = pos 0;
    build_timeout = pos 0;
    allowed_git_hosts = [];
  };
  kernels = record {
    max_kernel_bytes = pos 0;
    test_timeout = pos 0;
    ci_scan_timeout = pos 0;
    ci_import_timeout = pos 0;
    firecracker_ci_base_url = "";
  };
}

abbrev pub web : Vm
web = record {
  id = "v1";
  name = "web";
  state = VmState.stopped;
  vcpu_count = pos 2;
  mem_mib = pos 512;
  ssh_port = 2200;
  tap_name = "tap-v1";
  host_ip = "172.30.0.1";
  guest_ip = "172.30.0.2";
  cidr = 30;
  kernel_path = "/kernels/k";
  kernel_id = "";
  rootfs_path = "/images/web/rootfs";
  base_rootfs_path = "";
  base_image_id = "";
  rootfs_size_mib = pos 1024;
  dev_user = "dev";
  ssh_key_id = "";
  managed_ssh_public_key = "";
  managed_ssh_private_key_path = "";
  extra_authorized_keys = "";
  repo_url = "";
  git_ref = "";
  egress_mode = "allow_all";
  egress_policy_id = "";
  network_mode = "routed_ptp";
  network_id = "";
  last_error = "";
  created_at = 0;
  updated_at = 0;
  last_started_at = none;
  last_stopped_at = none;
}

abbrev pub small : World
small = record { env = calm; step = 0; db = record empty { vms = web ∷ [] }; performed = [] }

abbrev pub linux : Kernel
linux = record {
  id = "k1";
  name = "linux";
  version = "6.1";
  architecture = "x86_64";
  status = "active";
  source_type = "upload";
  path = "/kernels/k1";
  config_path = "";
  checksum = "";
  boot_args = "";
  provenance = "";
  created_by = "";
  created_at = 1;
  updated_at = 1;
  last_tested_at = none;
}

abbrev pub debian : BaseImage
debian = record {
  id = "i1";
  name = "debian";
  status = "active";
  filesystem = "ext4";
  path = "/base/i1";
  virtual_size_mib = pos 2048;
  disk_size_bytes = 0;
  checksum = "";
  packages = "";
  hooks = "";
  provenance = "";
  created_by = "";
  created_at = 1;
  updated_at = 1;
}

abbrev pub stocked : World
stocked = record small { db = record small.db { kernels = linux ∷ []; base_images = debian ∷ [] } }
