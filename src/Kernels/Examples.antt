-- ===== src/Kernels/Examples.antt =====
-- Kernels that are changed, removed and tested, and the theorems at them.
use bap_web.Prelude.{ℕ, String, true, none, some, Option, List, [], ◌∷◌, find, ◌=?◌, ◌≡◌, refl, All}
use bap_web.Model.{KernelTestJob}
use bap_web.Errors.{Error}
use bap_web.World.{World, Result, ok, err}
use bap_web.SshKeys.{Crypto}
use bap_web.Lifecycle.Fixtures.{site, stocked}
use bap_web.Kernels.{KernelUpdate, remove_kernel}
use bap_web.Kernels.Names.{sanitize_path_part}
use bap_web.Kernels.Safe.{IsPart, sanitize_path_part-IsPart}
use bap_web.Kernels.Removal.{Removed, remove_kernel-Removed}
use bap_web.Kernels.Statuses.{Valid, KernelCall, call_kernels, call_kernels-Valid}
use bap_web.Kernels.Smoke.{run_kernel_test}
use bap_web.Kernels.Outcome.{Done, test_of, run_kernel_test-Done}

sanitize_path_part-IsPart_example : IsPart (sanitize_path_part "../etc/passwd ")
sanitize_path_part-IsPart_example = sanitize_path_part-IsPart "../etc/passwd "

-- Here no machine of the database uses the kernel.
abbrev idle : World
idle = record stocked { db = record stocked.db { vms = [] } }

removes : (remove_kernel "k1" idle).0 ≡ ok tt
unfolding remove_kernel bap_web.World.◌>>=◌ bap_web.Store.Assets.get_kernel bap_web.World.statement
    find bap_web.Store.Assets.delete_kernel bap_web.World.refuse_if bap_web.Store.Table.count
    bap_web.Prelude.keep bap_web.World.modify bap_web.World.when bap_web.World.perform
removes = refl

remove_kernel-Removed_example : Removed idle.db (remove_kernel "k1" idle).1.db "k1"
remove_kernel-Removed_example = remove_kernel-Removed "k1" idle removes

abbrev archive : KernelUpdate
archive = record { name = ""; status = "archived"; boot_args = "" }

abbrev kernel_calls : List KernelCall
kernel_calls =
    KernelCall.test site "k1" "ann" ∷ KernelCall.change "k1" archive ∷ KernelCall.remove "k2" ∷ []

call_kernels-Valid_example : All Valid (call_kernels kernel_calls stocked).1.db.kernels
call_kernels-Valid_example = call_kernels-Valid kernel_calls stocked (refl, tt)

-- No key can be made, so the test fails.
abbrev no_keys : Crypto
no_keys = record {
  new_pair = λ n comment. err (Error.plain "no entropy");
  parse_authorized = λ line. err (Error.plain "no key");
}

abbrev queued : KernelTestJob
queued = record {
  id = "t1";
  kernel_id = "k1";
  status = "queued";
  log_path = "/log/kernel-test-1.log";
  base_image_id = "i1";
  uname_result = "";
  error = "";
  created_by = "ann";
  created_at = 2;
  started_at = none;
  completed_at = none;
}

abbrev waiting : World
waiting = record stocked { db = record stocked.db { kernel_test_jobs = queued ∷ [] } }

is_there : find (λ j. j.id =? "t1") waiting.db.kernel_test_jobs ≡ some queued
unfolding find
is_there = refl

run_kernel_test-Done_example :
    Done
      (test_of no_keys site queued (record waiting { step = 1 }))
      (run_kernel_test no_keys site "t1" waiting).1.db
      "t1"
run_kernel_test-Done_example =
    run_kernel_test-Done no_keys site "t1" queued waiting (λ n. refl) is_there
