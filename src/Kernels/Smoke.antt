-- ===== src/Kernels/Smoke.antt =====
-- internal/lifecycle/kernels.go: `runKernelTest`, which makes a machine with the kernel, starts it,
-- logs in and deletes it.
use bap_web.Prelude.{
  ℕ, zero, suc, ◌+◌, pos, String, true, Option, none, some, List, [], ◌∷◌, ltb, ◌=?◌, if◌then◌else◌,
}
use bap_web.Text.{concat, trim_space, byte_prefix}
use bap_web.Model.{Vm, Kernel, BaseImage, KernelTestJob}
use bap_web.Config.{Config}
use bap_web.Errors.{Error, message, not_found}
use bap_web.Store.Assets.{get_kernel, get_base_image, update_kernel_test_job, get_kernel_test_job}
use bap_web.World.{
  M, Result, ok, err, Action, pure, raise, or_raise, try, attempt, quiet, perform, output_of,
  time_now, ◌>>=◌, ◌>>◌,
}
use bap_web.SshKeys.{Crypto, GeneratedKey, generate}
use bap_web.Lifecycle.Names.{path, dir}
use bap_web.Lifecycle.Firewall.{returned}
use bap_web.Lifecycle.Create.{CreateRequest, create_machine}
use bap_web.Lifecycle.Vms.{start_vm, delete_machine}
use bap_web.Kernels.{tested}
use bap_web.Kernels.Output.{clean_kernel_test_output}

abbrev smoke_words : String → Vm → List String
smoke_words key vm =
    "ssh"
    ∷ "-o"
    ∷ "BatchMode=yes"
    ∷ "-o"
    ∷ "StrictHostKeyChecking=no"
    ∷ "-o"
    ∷ "UserKnownHostsFile=/dev/null"
    ∷ "-o"
    ∷ "LogLevel=ERROR"
    ∷ "-o"
    ∷ "ConnectTimeout=3"
    ∷ "-i"
    ∷ key
    ∷ concat (vm.dev_user ∷ "@" ∷ vm.guest_ip ∷ [])
    ∷ concat ("uname -r; ping -c 1 -W 2 " ∷ vm.host_ip ∷ " >/dev/null && echo gateway-ok" ∷ [])
    ∷ []

abbrev smoke_error : String → Error
smoke_error last =
    if last =? ""
    then Error.plain "SSH smoke did not succeed"
    else Error.plain (concat ("SSH smoke did not succeed: " ∷ last ∷ []))

-- One attempt has an answer, or another follows after two seconds.
abbrev pub answered : (String → M String) → Result String → M String
answered next (ok text) = pure (clean_kernel_test_output (trim_space text))
answered next (err e) = do perform (Action.wait 2000000000); next (trim_space (message e))

-- The loop of `waitForKernelTestSSH`. An error carries what the command printed.
unfoldable pub smoke_from : ℕ → ℕ → String → Vm → String → M String
smoke_from zero deadline key vm last = raise (smoke_error last)
smoke_from (suc n) deadline key vm last = do
  now ← time_now
  if ltb now deadline
      then (do r ← try (output_of (smoke_words key vm)); answered (smoke_from n deadline key vm) r)
      else raise (smoke_error last)

-- `waitForKernelTestSSH`. As two seconds pass between two attempts, forty-five begin before the
-- deadline at most.
unfoldable pub wait_for_kernel_test_ssh : String → Vm → M String
wait_for_kernel_test_ssh key vm = do now ← time_now; smoke_from 46 (now + 90000000000) key vm ""

-- What `executeKernelTest` asks for.
abbrev pub test_machine : KernelTestJob → Kernel → BaseImage → GeneratedKey → CreateRequest
test_machine job kernel image key = record {
  name = concat ("kt" ∷ byte_prefix 10 job.id ∷ []);
  vcpu_count = pos 1;
  mem_mib = pos 512;
  ssh_port = pos 0;
  dev_user = "dev";
  ssh_key_id = "";
  extra_authorized_keys = key.key.public_key;
  repo_url = "";
  git_ref = "HEAD";
  egress_mode = "allow_all";
  egress_policy_id = "";
  network_mode = "routed_ptp";
  network_id = "";
  base_image_id = image.id;
  rootfs_size_mib = image.virtual_size_mib;
  kernel_id = kernel.id;
  allow_pending_kernel = true;
}

-- The log-in, after which the file of the key is removed.
unfoldable pub log_in : Config → KernelTestJob → GeneratedKey → Vm → M KernelTestJob
log_in cfg job key vm = do
  start_vm cfg vm.id
  let file = path (cfg.paths.runtime_dir ∷ concat ("kernel-test-" ∷ job.id ∷ []) ∷ [])
  perform (Action.write file key.private_key)
  out ← try (wait_for_kernel_test_ssh file vm)
  r ← try (do
    text ← returned out
    let seen : KernelTestJob = record job { uname_result = clean_kernel_test_output text }
    attempt (update_kernel_test_job seen)
    pure seen)
  attempt (perform (Action.remove file))
  returned r

-- `executeKernelTest`, without the text of the log: the machine is deleted whatever becomes of it.
unfoldable pub execute_kernel_test : Crypto → Config → KernelTestJob → M KernelTestJob
execute_kernel_test crypto cfg job = do
  perform (Action.mkdir_all (dir job.log_path))
  perform (Action.create job.log_path)
  found ← get_kernel job.kernel_id
  kernel ← or_raise found (not_found "kernel not found")
  there ← get_base_image job.base_image_id
  image ← or_raise there (not_found "base image not found")
  key ← generate crypto (concat ("kernel-test-" ∷ job.id ∷ [])) "kernel-test"
  vm ← create_machine cfg (test_machine job kernel image key)
  r ← try (log_in cfg job key vm)
  attempt (delete_machine cfg vm.id)
  returned r

abbrev pub test_ended : KernelTestJob → ℕ → Result KernelTestJob → M (Unit {0})
test_ended job completed (ok seen) = tested (record seen { completed_at = some completed }) none
test_ended job completed (err e) = tested (record job { completed_at = some completed }) (some e)

abbrev pub test_loaded : Crypto → Config → Option KernelTestJob → M (Unit {0})
test_loaded crypto cfg none = pure tt
test_loaded crypto cfg (some job) = do
  started ← time_now
  let running : KernelTestJob = record job { status = "running"; started_at = some started }
  attempt (update_kernel_test_job running)
  r ← try (execute_kernel_test crypto cfg running)
  completed ← time_now
  test_ended running completed r

-- `runKernelTest`
unfoldable pub run_kernel_test : Crypto → Config → String → M (Unit {0})
run_kernel_test crypto cfg id = do
  found ← quiet (get_kernel_test_job id)
  test_loaded crypto cfg found
