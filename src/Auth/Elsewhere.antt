-- ===== src/Auth/Elsewhere.antt =====
-- What the calls for machines and kernels of internal/lifecycle do to the tokens: nothing.
use bap_web.Prelude.{String, Option, none, some}
use bap_web.Model.{Vm, Kernel, KernelTestJob}
use bap_web.Config.{Config}
use bap_web.Errors.{Error}
use bap_web.Store.Vms.{update_vm, delete_vm, create_vm}
use bap_web.Store.Access.{touch_ssh_key}
use bap_web.Store.Assets.{
  get_kernel, update_kernel, delete_kernel, delete_kernel_at, update_kernel_test_job,
  default_base_image, create_kernel_test_job,
}
use bap_web.Store.Keeps.{query_rules}
use bap_web.World.Keeps.{Keeps}
use bap_web.Auth.Dead.{Dead, elsewhere}
use bap_web.Lifecycle.Vms.Rows.{RowLaw}
use bap_web.Lifecycle.Vms.Calls.{VmCall, target, operate, operate-Keeps}
use bap_web.Lifecycle.Create.{CreateRequest, create_machine}
use bap_web.Lifecycle.Create.Quiet.{
  Keeps-check_request, Keeps-resolve_kernel_for_vm, Keeps-resolve_base_image_for_vm,
  Keeps-primary_key_for, Keeps-allocate_port, Keeps-allocate_network, Keeps-prepare_rootfs,
}
use bap_web.Kernels.{
  KernelUpdate, change_kernel, remove_kernel, start_kernel_test, set_found, set_tested, tested,
}
use bap_web.Kernels.Statuses.{KernelCall, call_kernel}

module _ (secret : String) where
  update_vm-Dead : (vm : Vm) → Keeps (Dead secret) (update_vm vm)
  unfolding update_vm
  update_vm-Dead vm = search (query_rules, elsewhere)

  delete_vm-Dead : (id : String) → Keeps (Dead secret) (delete_vm id)
  unfolding delete_vm
  delete_vm-Dead id = search (query_rules, elsewhere) depth 14

  create_vm-Dead : (vm : Vm) → Keeps (Dead secret) (create_vm vm)
  unfolding create_vm
  create_vm-Dead vm = search (query_rules, elsewhere)

  touch_ssh_key-Dead : (id : String) → Keeps (Dead secret) (touch_ssh_key id)
  unfolding touch_ssh_key
  touch_ssh_key-Dead id = search (query_rules, elsewhere)

  row_law : (id : String) → RowLaw id (Dead secret) (λ _. Unit {0})
  row_law id = record {
    reads = record { gives = λ w h vm e. tt };
    edits = λ vm vm' i c m q. tt;
    resizes = λ vm c m within q. tt;
    writes = λ vm q. update_vm-Dead vm;
  }

  pub operate-Dead : (cfg : Config) (c : VmCall) → Keeps (Dead secret) (operate cfg c)
  operate-Dead cfg c = operate-Keeps cfg c (row_law (target c)) (delete_vm-Dead (target c))

  pub create_machine-Dead :
      (cfg : Config) (req : CreateRequest) → Keeps (Dead secret) (create_machine cfg req)
  unfolding create_machine
  create_machine-Dead cfg req =
      search
        (
          query_rules, Keeps-check_request, Keeps-resolve_kernel_for_vm,
          Keeps-resolve_base_image_for_vm, Keeps-primary_key_for, Keeps-allocate_port,
          Keeps-allocate_network, Keeps-prepare_rootfs, create_vm-Dead, touch_ssh_key-Dead,
        )
        depth 24

  Keeps-get_kernel : (id : String) → Keeps (Dead secret) (get_kernel id)
  unfolding get_kernel
  Keeps-get_kernel id = search query_rules

  update_kernel-Dead : (k : Kernel) → Keeps (Dead secret) (update_kernel k)
  unfolding update_kernel
  update_kernel-Dead k = search (query_rules, elsewhere)

  change_kernel-Dead :
      (id : String) (req : KernelUpdate) → Keeps (Dead secret) (change_kernel id req)
  unfolding change_kernel
  change_kernel-Dead id req = search (query_rules, Keeps-get_kernel, update_kernel-Dead) depth 14

  deleted-Dead : (id : String) (o : Option Kernel) → Keeps (Dead secret) (delete_kernel_at id o)
  deleted-Dead id none = search query_rules
  deleted-Dead id (some k) = search (query_rules, elsewhere) depth 14

  delete_kernel-Dead : (id : String) → Keeps (Dead secret) (delete_kernel id)
  unfolding delete_kernel
  delete_kernel-Dead id = search (query_rules, deleted-Dead)

  remove_kernel-Dead : (id : String) → Keeps (Dead secret) (remove_kernel id)
  unfolding remove_kernel
  remove_kernel-Dead id = search (query_rules, delete_kernel-Dead, Keeps-get_kernel)

  new_test-Dead : (job : KernelTestJob) → Keeps (Dead secret) (create_kernel_test_job job)
  unfolding create_kernel_test_job
  new_test-Dead job = search (query_rules, elsewhere)

  Keeps-default_base_image : Keeps (Dead secret) default_base_image
  unfolding default_base_image
  Keeps-default_base_image = search query_rules

  start_kernel_test-Dead :
      (cfg : Config) (id actor : String) → Keeps (Dead secret) (start_kernel_test cfg id actor)
  unfolding start_kernel_test
  start_kernel_test-Dead cfg id actor =
      search (query_rules, new_test-Dead, Keeps-get_kernel, Keeps-default_base_image) depth 16

  test_row-Dead : (job : KernelTestJob) → Keeps (Dead secret) (update_kernel_test_job job)
  unfolding update_kernel_test_job
  test_row-Dead job = search (query_rules, elsewhere)

  found-Dead :
      (change : Kernel → Kernel) (o : Option Kernel) → Keeps (Dead secret) (set_found change o)
  found-Dead change none = search query_rules
  found-Dead change (some k) = search (query_rules, update_kernel-Dead)

  set_tested-Dead :
      (id : String) (change : Kernel → Kernel) → Keeps (Dead secret) (set_tested id change)
  unfolding set_tested
  set_tested-Dead id change = search (query_rules, Keeps-get_kernel, found-Dead)

  tested-Dead : (job : KernelTestJob) (o : Option Error) → Keeps (Dead secret) (tested job o)
  tested-Dead job none = search (query_rules, set_tested-Dead, test_row-Dead)
  tested-Dead job (some e) = search (query_rules, set_tested-Dead, test_row-Dead)

  pub call_kernel-Dead : (c : KernelCall) → Keeps (Dead secret) (call_kernel c)
  call_kernel-Dead (KernelCall.change id req) = search (query_rules, change_kernel-Dead)
  call_kernel-Dead (KernelCall.remove id) = search (query_rules, remove_kernel-Dead)
  call_kernel-Dead (KernelCall.test cfg id actor) = search (query_rules, start_kernel_test-Dead)
  call_kernel-Dead (KernelCall.finish job outcome) = tested-Dead job outcome
