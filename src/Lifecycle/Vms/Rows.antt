-- ===== src/Lifecycle/Vms/Rows.antt =====
-- What an invariant of the table of virtual machines needs for the operations to keep it.
use bap_web.Prelude.{
  ℕ, ℤ, pos, ◌≡◌, refl, String, Bool, some, ◌≤ℤ◌, arith, find, Option-cases, inl, inr,
}
use bap_web.Model.{Vm, is_up}
use bap_web.Config.{Config}
use bap_web.Store.Db.{Db}
use bap_web.Store.Vms.{has_id, get_vm, update_vm, delete_vm}
use bap_web.World.{pure, Env, World, Result, ok, err, ◌>>=◌, refuse_if, statement}
use bap_web.World.Keeps.{
  Keeps, Gives, Keeps-bind, Keeps-after, Keeps-try, Keeps-attempt, Keeps-time_now, Gives-if,
  Keeps-if, Gives-bind, Gives-pure, Keeps-when,
}
use bap_web.Lifecycle.Quiet.{
  host_rules, Keeps-apply_nft, Keeps-cleanup_vm_runtime, Keeps-returned,
  Keeps-ensure_vm_network_usable,
}
use bap_web.Lifecycle.Vms.{
  the_vm, ensure_tap_name, already_running, process_running, fail_vm, launch, launched, bring_up,
  start_vm, kill_vm, settle, stop_vm, remove_files, delete_machine, check_resources, rested,
  update_resources, restart_vm, stop_and_start,
}

-- The numbers that `UpdateResources` accepts.
pub record Within (vcpus mem : ℤ) : Type 0 where
  pub vcpus_least : pos 1 ≤ℤ vcpus
  pub vcpus_most : vcpus ≤ℤ pos 32
  pub mem_least : pos 128 ≤ℤ mem
  pub mem_most : mem ≤ℤ pos 262144

-- `P` is the invariant of the database. `Q` is what a row that the operations read for the id
-- satisfies, and what makes a row fit to be written.
pub record RowLaw (id : String) (P : Env → Db → Type 0) (Q : Vm → Type 0) : Type 0 where
  pub reads : Gives P Q (the_vm id)
  pub edits :
      (vm vm' : Vm)
      → vm'.id ≡ vm.id
      → vm'.vcpu_count ≡ vm.vcpu_count
      → vm'.mem_mib ≡ vm.mem_mib
      → Q vm
      → Q vm'
  pub resizes :
      (vm : Vm) (vcpus mem : ℤ)
      → Within vcpus mem
      → Q vm
      → Q (record vm { vcpu_count = vcpus; mem_mib = mem })
  pub writes : (vm : Vm) → Q vm → Keeps P (update_vm vm)

pub the_vm-found :
    (id : String) (w : World) (vm : Vm)
    → (the_vm id w).0 ≡ ok vm
    → find (has_id id) w.db.vms ≡ some vm
unfolding the_vm get_vm ◌>>=◌ statement
the_vm-found id w vm e = elim (Option-cases (find (has_id id) w.db.vms)) [
  | inl missing ↦ absurd (ground arith)
  | inr (there, found) ↦ ground arith
]

pub the_vm-Keeps : {P : Env → Db → Type 0} (id : String) → Keeps P (the_vm id)
unfolding the_vm
the_vm-Keeps id = search host_rules

pub already_running-Keeps : {P : Env → Db → Type 0} (vm : Vm) → Keeps P (already_running vm)
unfolding already_running process_running
already_running-Keeps vm = search host_rules

pub kill_vm-Keeps : {P : Env → Db → Type 0} (cfg : Config) (vm : Vm) → Keeps P (kill_vm cfg vm)
unfolding kill_vm
kill_vm-Keeps cfg vm = search host_rules

pub launch-Keeps : {P : Env → Db → Type 0} (cfg : Config) (vm : Vm) → Keeps P (launch cfg vm)
unfolding launch
launch-Keeps cfg vm = search host_rules

module _ (cfg : Config) (id : String) {P : Env → Db → Type 0} {Q : Vm → Type 0}
    (law : RowLaw id P Q) where
  write :
      (vm vm' : Vm)
      → vm'.id ≡ vm.id
      → vm'.vcpu_count ≡ vm.vcpu_count
      → vm'.mem_mib ≡ vm.mem_mib
      → Q vm
      → Keeps P (update_vm vm')
  write vm vm' i c m q = law.writes vm' (law.edits vm vm' i c m q)

  ensure_tap_name-Keeps : (vm : Vm) → Q vm → Keeps P (ensure_tap_name vm)
  unfolding ensure_tap_name
  ensure_tap_name-Keeps vm q = search (
    host_rules,
    λ (vm' : Vm) (i : vm'.id ≡ vm.id) (c : vm'.vcpu_count ≡ vm.vcpu_count)
          (m : vm'.mem_mib ≡ vm.mem_mib).
        write vm vm' i c m q,
  )

  ensure_tap_name-Gives : (vm : Vm) → Q vm → Gives P Q (ensure_tap_name vm)
  unfolding ensure_tap_name ◌>>=◌ refuse_if
  ensure_tap_name-Gives vm q = record {
    gives = λ w h named e. law.edits vm named (ground arith) (ground arith) (ground arith) q;
  }

  launched-Keeps : (vm : Vm) (t : ℕ) (r : Result (Unit {0})) → Q vm → Keeps P (launched vm t r)
  unfolding fail_vm
  launched-Keeps vm t (err e) q =
      Keeps-bind _ _ Keeps-time_now
        λ now. Keeps-bind _ _ (Keeps-attempt _ (write vm _ refl refl refl q)) λ _. search host_rules
  launched-Keeps vm t (ok _) q = Keeps-bind _ _ Keeps-time_now λ now. write vm _ refl refl refl q

  bring_up-Keeps : (vm : Vm) → Q vm → Keeps P (bring_up cfg vm)
  unfolding bring_up
  bring_up-Keeps vm q = Keeps-bind _ _ Keeps-time_now λ now.
      Keeps-bind _ _ (write vm _ refl refl refl q) λ _.
        Keeps-bind _ _ (Keeps-try _ (launch-Keeps cfg _))
          λ r. launched-Keeps _ now r (law.edits vm _ refl refl refl q)

  pub start_vm-Keeps : Keeps P (start_vm cfg id)
  unfolding start_vm
  start_vm-Keeps = Keeps-after _ _ (the_vm-Keeps id) law.reads λ vm q.
      Keeps-after _ _ (ensure_tap_name-Keeps vm q) (ensure_tap_name-Gives vm q) λ named q'.
        Keeps-bind _ _ (Keeps-ensure_vm_network_usable named) λ _.
          Keeps-bind _ _ (already_running-Keeps named) λ runs.
            Keeps-if (pure tt) (bring_up cfg named) runs (search host_rules)
              (bring_up-Keeps named q')

  settle-Keeps :
      (vm row : Vm) (r : Result (Unit {0}))
      → row.id ≡ vm.id
      → row.vcpu_count ≡ vm.vcpu_count
      → row.mem_mib ≡ vm.mem_mib
      → Q vm
      → Keeps P (settle cfg row r)
  unfolding settle
  settle-Keeps vm row r i c m q =
      Keeps-bind _ _ (write vm row i c m q)
        λ _. Keeps-bind _ _ (Keeps-apply_nft cfg) λ _. Keeps-returned r

  pub stop_vm-Keeps : Keeps P (stop_vm cfg id)
  unfolding stop_vm
  stop_vm-Keeps = Keeps-after _ _ (the_vm-Keeps id) law.reads λ vm q.
      Keeps-bind _ _ (Keeps-attempt _ (write vm _ refl refl refl q)) λ _.
        Keeps-bind _ _ (kill_vm-Keeps cfg vm) λ _.
          Keeps-bind _ _ (Keeps-try _ (Keeps-cleanup_vm_runtime cfg vm))
            λ r. Keeps-bind _ _ Keeps-time_now λ now. settle-Keeps vm _ r refl refl refl q

  pub delete_machine-Keeps : Keeps P (delete_vm id) → Keeps P (delete_machine cfg id)
  unfolding delete_machine remove_files
  delete_machine-Keeps k =
      Keeps-bind _ _ (the_vm-Keeps id)
        λ vm. Keeps-bind _ _ stop_vm-Keeps λ _. Keeps-bind _ _ (search host_rules depth 14) λ _. k

  check_resources-Keeps : (vm : Vm) (c m : ℤ) (r : Bool) → Keeps P (check_resources vm c m r)
  unfolding check_resources
  check_resources-Keeps vm c m r = search host_rules

  check_resources-Gives :
      (vm : Vm) (c m : ℤ) (r : Bool) → Gives P (λ _. Within c m) (check_resources vm c m r)
  unfolding check_resources ◌>>=◌ refuse_if
  check_resources-Gives vm c m r = record {
    gives = λ w h _ e. record {
      vcpus_least = ground arith;
      vcpus_most = ground arith;
      mem_least = ground arith;
      mem_most = ground arith;
    };
  }

  rested-Keeps : (vm : Vm) → Keeps P (rested cfg id vm)
  unfolding rested
  rested-Keeps vm = search (host_rules, the_vm-Keeps, stop_vm-Keeps)

  rested-Gives : (vm : Vm) → Q vm → Gives P Q (rested cfg id vm)
  unfolding rested
  rested-Gives vm q =
      Gives-if (is_up vm.state) _ _ (Gives-bind _ _ stop_vm-Keeps λ _. law.reads) (Gives-pure vm q)

  pub update_resources-Keeps : (c m : ℤ) (r : Bool) → Keeps P (update_resources cfg id c m r)
  unfolding update_resources
  update_resources-Keeps c m r = Keeps-after _ _ (the_vm-Keeps id) law.reads λ vm q.
      Keeps-after _ _ (check_resources-Keeps vm _ _ r) (check_resources-Gives vm _ _ r) λ _ within.
        Keeps-after _ _ (rested-Keeps vm) (rested-Gives vm q) λ row q'.
          Keeps-bind _ _ (law.writes _ (law.resizes row _ _ within q'))
            λ _. Keeps-bind _ _ (Keeps-when _ _ start_vm-Keeps) λ _. search host_rules

  stop_and_start-Keeps : Keeps P (stop_and_start cfg id)
  unfolding stop_and_start
  stop_and_start-Keeps =
      Keeps-bind _ _ stop_vm-Keeps λ _. Keeps-bind _ _ start_vm-Keeps λ _. search host_rules

  pub restart_vm-Keeps : (c m : ℤ) → Keeps P (restart_vm cfg id c m)
  unfolding restart_vm
  restart_vm-Keeps c m = search (host_rules, update_resources-Keeps, stop_and_start-Keeps)
