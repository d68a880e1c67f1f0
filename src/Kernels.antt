-- ===== src/Kernels.antt =====
-- internal/lifecycle/kernels.go: changes of kernels, and the job that tests one.
pub mod Names
pub mod Safe
pub mod Output
pub mod Smoke
pub mod Frame
pub mod Rows
pub mod Outcome
pub mod Removal
pub mod Statuses
mod Examples
use bap_web.Prelude.{
  String, Bool, true, false, not, ◌&&◌, ◌||◌, Option, none, some, List, [], ◌∷◌, ◌=?◌,
  if◌then◌else◌,
}
use bap_web.Text.{concat, trim_space}
use bap_web.Model.{Kernel, BaseImage, KernelTestJob}
use bap_web.Config.{Config}
use bap_web.Errors.{Error, message, invalid, not_found}
use bap_web.Store.Assets.{
  get_kernel, update_kernel, delete_kernel, default_base_image, create_kernel_test_job,
  update_kernel_test_job, get_kernel_test_job,
}
use bap_web.World.{
  M, Result, ok, err, Action, pure, or_raise, try, attempt, quiet, when, refuse_if, perform,
  time_now, random_hex, ◌>>=◌, ◌>>◌,
}
use bap_web.Lifecycle.Names.{path, dir}
use bap_web.Lifecycle.Rules.{matches_name, name_pattern}

pub record KernelUpdate : Type 0 where
  pub name : String
  pub status : String
  pub boot_args : String

-- `validKernelStatus`
abbrev pub valid_kernel_status : String → Bool
valid_kernel_status s = s =? "pending" || s =? "active" || s =? "failed" || s =? "archived"

-- A field that a request may leave empty.
abbrev pub given : String → String → String
given text old = if trim_space text =? "" then old else trim_space text

-- A kernel with the fields that a request gives.
abbrev pub updated_kernel : Kernel → KernelUpdate → Kernel
updated_kernel k req = record k {
  name = given req.name k.name;
  status = given req.status k.status;
  boot_args = given req.boot_args k.boot_args;
}

-- `UpdateKernel`
unfoldable pub change_kernel : String → KernelUpdate → M (Option Kernel)
change_kernel id req = do
  found ← get_kernel id
  kernel ← or_raise found (not_found "kernel not found")
  refuse_if (not (trim_space req.name =? "") && not (matches_name (trim_space req.name)))
      (invalid "Kernel name is invalid" (("name", name_pattern) ∷ []))
  refuse_if (not (trim_space req.status =? "") && not (valid_kernel_status (trim_space req.status)))
      (invalid "Kernel status is invalid"
        (("status", "must be pending, active, failed, or archived") ∷ []))
  update_kernel (updated_kernel kernel req)
  get_kernel id

-- `DeleteKernel`; to remove a directory that is not there is no error.
unfoldable pub remove_kernel : String → M (Unit {0})
remove_kernel id = do
  found ← get_kernel id
  kernel ← or_raise found (not_found "kernel not found")
  delete_kernel id
  when (not (kernel.source_type =? "configured") && not (kernel.path =? ""))
      (perform (Action.remove_all (dir kernel.path)))

-- `StartKernelTest`, up to the goroutine that it starts.
unfoldable pub start_kernel_test : Config → String → String → M KernelTestJob
start_kernel_test cfg kernel_id actor = do
  found ← get_kernel kernel_id
  kernel ← or_raise found (not_found "kernel not found")
  default ← default_base_image
  image ← or_raise default (not_found "base image not found")
  now ← time_now
  id ← random_hex 8
  log ← random_hex 8
  let job : KernelTestJob = record {
    id = id;
    kernel_id = kernel.id;
    status = "queued";
    log_path = path (cfg.paths.log_dir ∷ concat ("kernel-test-" ∷ log ∷ ".log" ∷ []) ∷ []);
    base_image_id = image.id;
    uname_result = "";
    error = "";
    created_by = actor;
    created_at = now;
    started_at = none;
    completed_at = none;
  }
  create_kernel_test_job job
  pure job

abbrev pub set_found : (Kernel → Kernel) → Option Kernel → M (Unit {0})
set_found change none = pure tt
set_found change (some k) = attempt (update_kernel (change k))

-- The status of a tested kernel, if its row can be read; an error of the statement counts as no row.
unfoldable pub set_tested : String → (Kernel → Kernel) → M (Unit {0})
set_tested id change = do found ← quiet (get_kernel id); set_found change found

-- The end of `runKernelTest`: what the test returned, with the job as it left it.
abbrev pub tested : KernelTestJob → Option Error → M (Unit {0})
tested job (some e) = do
  set_tested job.kernel_id (λ k. record k { status = "failed" })
  attempt (update_kernel_test_job (record job { status = "failed"; error = message e }))
tested job none = do
  attempt (update_kernel_test_job (record job { status = "succeeded" }))
  set_tested job.kernel_id (λ k. record k { status = "active"; last_tested_at = job.completed_at })
