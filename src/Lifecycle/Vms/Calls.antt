-- ===== src/Lifecycle/Vms/Calls.antt =====
-- The calls that change a virtual machine, one after another. An error ends its call only.
use bap_web.Prelude.{String, ℤ, Bool, List, [], ◌∷◌}
use bap_web.Model.{Vm}
use bap_web.Config.{Config}
use bap_web.Store.Db.{Db}
use bap_web.Store.Vms.{delete_vm}
use bap_web.World.{Env, M, pure, try, ◌>>=◌, ◌>>◌}
use bap_web.World.Keeps.{Keeps, keeps_rules}
use bap_web.Lifecycle.Vms.{start_vm, stop_vm, delete_machine, restart_vm, update_resources}
use bap_web.Lifecycle.Vms.Rows.{
  RowLaw, start_vm-Keeps, stop_vm-Keeps, delete_machine-Keeps, restart_vm-Keeps,
  update_resources-Keeps,
}

pub data VmCall : Type 0 where
  start stop remove : String → VmCall
  restart : String → ℤ → ℤ → VmCall
  resize : String → ℤ → ℤ → Bool → VmCall

-- The machine that a call is about.
abbrev pub target : VmCall → String
target (VmCall.start id) = id
target (VmCall.stop id) = id
target (VmCall.remove id) = id
target (VmCall.restart id c m) = id
target (VmCall.resize id c m r) = id

unfoldable pub operate : Config → VmCall → M (Unit {0})
operate cfg (VmCall.start id) = do try (start_vm cfg id); pure tt
operate cfg (VmCall.stop id) = do try (stop_vm cfg id); pure tt
operate cfg (VmCall.remove id) = do try (delete_machine cfg id); pure tt
operate cfg (VmCall.restart id c m) = do try (restart_vm cfg id c m); pure tt
operate cfg (VmCall.resize id c m r) = do try (update_resources cfg id c m r); pure tt

unfoldable pub operate_all : Config → List VmCall → M (Unit {0})
operate_all cfg [] = pure tt
operate_all cfg (c ∷ cs) = do operate cfg c; operate_all cfg cs

pub operate-Keeps :
    (cfg : Config) (c : VmCall) {P : Env → Db → Type 0} {Q : Vm → Type 0}
    → RowLaw (target c) P Q
    → Keeps P (delete_vm (target c))
    → Keeps P (operate cfg c)
unfolding operate ◌>>=◌
operate-Keeps cfg (VmCall.start id) law del = search (keeps_rules, start_vm-Keeps cfg id law)
operate-Keeps cfg (VmCall.stop id) law del = search (keeps_rules, stop_vm-Keeps cfg id law)
operate-Keeps cfg (VmCall.remove id) law del =
    search (keeps_rules, delete_machine-Keeps cfg id law del)
operate-Keeps cfg (VmCall.restart id c m) law del =
    search (keeps_rules, restart_vm-Keeps cfg id law c m)
operate-Keeps cfg (VmCall.resize id c m r) law del =
    search (keeps_rules, update_resources-Keeps cfg id law c m r)
