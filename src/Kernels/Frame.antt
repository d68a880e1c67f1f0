-- ===== src/Kernels/Frame.antt =====
-- What the parts of a test leave alone: the table of tests, and a database that answers.
use bap_web.Prelude.{ℕ, zero, suc, String, Option, none, some, List, ◌≡◌}
use bap_web.Model.{Vm, Kernel, KernelTestJob}
use bap_web.Config.{Config}
use bap_web.Store.Db.{Db}
use bap_web.Store.Vms.{update_vm, delete_vm, create_vm}
use bap_web.Store.Access.{touch_ssh_key}
use bap_web.Store.Assets.{get_kernel, update_kernel, get_base_image}
use bap_web.Store.Keeps.{query_rules, Keeps-refuse_clash}
use bap_web.World.{Env, M, Result, ok, err}
use bap_web.World.Keeps.{
  Keeps, Keeps-modify, Keeps-bind, Keeps-gets, Keeps-time_now, Keeps-statement,
}
use bap_web.SshKeys.{Crypto, generate, fresh_pair}
use bap_web.Lifecycle.Vms.Rows.{RowLaw}
use bap_web.Lifecycle.Create.{CreateRequest, create_machine}
use bap_web.Lifecycle.Create.Quiet.{
  Keeps-check_request, Keeps-resolve_kernel_for_vm, Keeps-resolve_base_image_for_vm,
  Keeps-primary_key_for, Keeps-allocate_port, Keeps-allocate_network, Keeps-prepare_rootfs,
}
use bap_web.Kernels.{set_found, set_tested}
use bap_web.Kernels.Smoke.{answered, smoke_from, wait_for_kernel_test_ssh}

-- The database answers every statement, and the table of tests is as `T` says.
abbrev pub Tests : (List KernelTestJob → Type 0) → Env → Db → Type 0
Tests T env d = ((n : ℕ) → env.sql n ≡ none) × T d.kernel_test_jobs

module _ (T : List KernelTestJob → Type 0) where
  pub update_vm-Tests : (vm : Vm) → Keeps (Tests T) (update_vm vm)
  unfolding update_vm
  update_vm-Tests vm = Keeps-bind _ _ Keeps-time_now λ now. Keeps-bind _ _ Keeps-statement λ _.
      Keeps-bind _ _ (Keeps-gets _)
        λ rows. Keeps-bind _ _ (Keeps-refuse_clash _) λ _. Keeps-modify _ λ env d h. h

  pub delete_vm-Tests : (id : String) → Keeps (Tests T) (delete_vm id)
  unfolding delete_vm
  delete_vm-Tests id = Keeps-bind _ _ Keeps-statement λ _.
      Keeps-bind _ _ (Keeps-modify _ λ env d h. h) λ _. Keeps-bind _ _ Keeps-statement λ _.
        Keeps-bind _ _ (Keeps-modify _ λ env d h. h)
          λ _. Keeps-bind _ _ Keeps-statement λ _. Keeps-modify _ λ env d h. h

  pub create_vm-Tests : (vm : Vm) → Keeps (Tests T) (create_vm vm)
  unfolding create_vm
  create_vm-Tests vm = Keeps-bind _ _ Keeps-statement λ _.
      Keeps-bind _ _ (Keeps-gets _)
        λ rows. Keeps-bind _ _ (Keeps-refuse_clash _) λ _. Keeps-modify _ λ env d h. h

  pub touch_ssh_key-Tests : (id : String) → Keeps (Tests T) (touch_ssh_key id)
  unfolding touch_ssh_key
  touch_ssh_key-Tests id =
      Keeps-bind _ _ Keeps-time_now
        λ now. Keeps-bind _ _ Keeps-statement λ _. Keeps-modify _ λ env d h. h

  pub update_kernel-Tests : (k : Kernel) → Keeps (Tests T) (update_kernel k)
  unfolding update_kernel
  update_kernel-Tests k = Keeps-bind _ _ Keeps-time_now λ now. Keeps-bind _ _ Keeps-statement λ _.
      Keeps-bind _ _ (Keeps-gets _)
        λ rows. Keeps-bind _ _ (Keeps-refuse_clash _) λ _. Keeps-modify _ λ env d h. h

  pub row_law : (id : String) → RowLaw id (Tests T) (λ _. Unit {0})
  row_law id = record {
    reads = record { gives = λ w h vm e. tt };
    edits = λ vm vm' i c m q. tt;
    resizes = λ vm c m within q. tt;
    writes = λ vm q. update_vm-Tests vm;
  }

  pub create_machine-Tests :
      (cfg : Config) (req : CreateRequest) → Keeps (Tests T) (create_machine cfg req)
  unfolding create_machine
  create_machine-Tests cfg req =
      search
        (
          query_rules, Keeps-check_request, Keeps-resolve_kernel_for_vm,
          Keeps-resolve_base_image_for_vm, Keeps-primary_key_for, Keeps-allocate_port,
          Keeps-allocate_network, Keeps-prepare_rootfs, create_vm-Tests, touch_ssh_key-Tests,
        )
        depth 24

  pub fresh_pair-Tests :
      (crypto : Crypto) (comment : String) → Keeps (Tests T) (fresh_pair crypto comment)
  unfolding fresh_pair
  fresh_pair-Tests crypto comment = record { at = λ w h. h }

  pub generate-Tests :
      (crypto : Crypto) (name by : String) → Keeps (Tests T) (generate crypto name by)
  unfolding generate
  generate-Tests crypto name by = search (query_rules, fresh_pair-Tests)

  pub Keeps-get_kernel : (id : String) → Keeps (Tests T) (get_kernel id)
  unfolding get_kernel
  Keeps-get_kernel id = search query_rules

  pub Keeps-get_base_image : (id : String) → Keeps (Tests T) (get_base_image id)
  unfolding get_base_image
  Keeps-get_base_image id = search query_rules

  pub answered-Tests :
      (next : String → M String) (r : Result String)
      → ((s : String) → Keeps (Tests T) (next s))
      → Keeps (Tests T) (answered next r)
  answered-Tests next (ok text) k = search query_rules
  answered-Tests next (err e) k = search (query_rules, k)

  pub smoke_from-Tests :
      (n deadline : ℕ) (key : String) (vm : Vm) (last : String)
      → Keeps (Tests T) (smoke_from n deadline key vm last)
  unfolding smoke_from
  smoke_from-Tests zero deadline key vm last = search query_rules
  smoke_from-Tests (suc n) deadline key vm last =
      let later : (s : String) → Keeps (Tests T) (smoke_from n deadline key vm s) =
        smoke_from-Tests n deadline key vm in
      search (query_rules, answered-Tests, later)

  pub wait-Tests : (key : String) (vm : Vm) → Keeps (Tests T) (wait_for_kernel_test_ssh key vm)
  unfolding wait_for_kernel_test_ssh
  wait-Tests key vm = search (query_rules, smoke_from-Tests)

  pub found-Tests :
      (change : Kernel → Kernel) (o : Option Kernel) → Keeps (Tests T) (set_found change o)
  found-Tests change none = search query_rules
  found-Tests change (some k) = search (query_rules, update_kernel-Tests)

  pub set_tested-Tests :
      (id : String) (change : Kernel → Kernel) → Keeps (Tests T) (set_tested id change)
  unfolding set_tested
  set_tested-Tests id change = search (query_rules, Keeps-get_kernel, found-Tests)
