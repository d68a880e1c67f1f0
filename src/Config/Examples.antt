-- ===== src/Config/Examples.antt =====
-- A configuration that is validated.
use bap_web.Prelude.{pos, ◌≡◌, refl}
use bap_web.World.{ok}
use bap_web.Config.{Config, validate}
use bap_web.Config.Defaults.{Complete, validate-Complete}
use bap_web.Lifecycle.Fixtures.{site}

abbrev full : Config
full = record site {
  server = record site.server { metadata_bind_address = "0.0.0.0" };
  images = record {
    build_dir = "/state/image-builds";
    hook_dir = "/state/image-hooks";
    max_base_image_mib = pos 32768;
    max_vm_rootfs_mib = pos 65536;
    max_hook_bytes = pos 262144;
    max_packages = pos 100;
    build_timeout = pos 2700000000000;
    allowed_git_hosts = site.images.allowed_git_hosts;
  };
  kernels = record {
    max_kernel_bytes = pos 536870912;
    test_timeout = pos 300000000000;
    ci_scan_timeout = pos 15000000000;
    ci_import_timeout = pos 120000000000;
    firecracker_ci_base_url = "https://s3.amazonaws.com/spec.ccfc.min";
  };
}

accepted : validate site ≡ ok full
unfolding validate bap_web.Config.completed bap_web.Config.or_text bap_web.Config.or_port
    bap_web.Config.or_number bap_web.Text.concat
accepted = refl

validate-Complete_example : Complete full × (validate full ≡ ok full)
validate-Complete_example = validate-Complete site full accepted
