-- ===== src/Lifecycle/Vms/Bounds.antt =====
-- The processors and the memory of virtual machines.
use bap_web.Prelude.{List, [], ◌∷◌, String, All}
use bap_web.Model.{Vm}
use bap_web.Config.{Config}
use bap_web.Store.Db.{Db}
use bap_web.Store.Table.Laws.{All-find, All-update, All-delete}
use bap_web.Store.Vms.{has_id, update_vm, delete_vm}
use bap_web.Store.Keeps.{query_rules, Keeps-refuse_clash}
use bap_web.World.{Env, World}
use bap_web.World.Keeps.{
  Keeps, Keeps-bind, Keeps-gets, Keeps-time_now, Keeps-statement, Keeps-modify,
}
use bap_web.Lifecycle.Vms.Calls.{VmCall, target, operate, operate_all, operate-Keeps}
use bap_web.Lifecycle.Vms.Rows.{Within, RowLaw, the_vm-found}

abbrev pub InBounds : Vm → Type 0
InBounds vm = Within vm.vcpu_count vm.mem_mib

abbrev pub AllInBounds : Env → Db → Type 0
AllInBounds env d = All InBounds d.vms

bounds-law : (id : String) → RowLaw id AllInBounds InBounds
unfolding update_vm
bounds-law id = record {
  reads = record {
    gives = λ w h vm e. All-find InBounds (has_id id) w.db.vms vm h (the_vm-found id w vm e);
  };
  edits = λ vm vm' i c m q. rw (c, m) q;
  resizes = λ vm c m within q. within;
  writes = λ vm q. Keeps-bind _ _ Keeps-time_now λ now. Keeps-bind _ _ Keeps-statement λ _.
      Keeps-bind _ _ (Keeps-gets _) λ rows.
        Keeps-bind _ _ (Keeps-refuse_clash _)
          λ _. Keeps-modify _ λ env d h. All-update InBounds _ _ d.vms (λ r _. q) h;
}

delete_vm-bounds : (id : String) → Keeps AllInBounds (delete_vm id)
unfolding delete_vm
delete_vm-bounds id = Keeps-bind _ _ Keeps-statement λ _.
    Keeps-bind _ _ (Keeps-modify _ λ env d h. h) λ _. Keeps-bind _ _ Keeps-statement λ _.
      Keeps-bind _ _ (Keeps-modify _ λ env d h. h) λ _.
        Keeps-bind _ _ Keeps-statement
          λ _. Keeps-modify _ λ env d h. All-delete InBounds (has_id id) d.vms h

-- A call keeps the bounds, whichever it is and whether it succeeds or fails.
operate-bounds : (cfg : Config) (c : VmCall) → Keeps AllInBounds (operate cfg c)
operate-bounds cfg c = operate-Keeps cfg c (bounds-law (target c)) (delete_vm-bounds (target c))

operate_all-Keeps : (cfg : Config) (cs : List VmCall) → Keeps AllInBounds (operate_all cfg cs)
unfolding operate_all
operate_all-Keeps cfg [] = search query_rules
operate_all-Keeps cfg (c ∷ cs) = Keeps-bind _ _ (operate-bounds cfg c) λ _. operate_all-Keeps cfg cs

-- If every virtual machine has 1 to 32 processors and 128 to 262144 MiB of memory, then this stays
-- so through any sequence of calls that start, stop, restart, resize and delete machines, whatever
-- numbers the calls ask for, and whether they succeed or fail.
pub operate_all-bounds :
    (cfg : Config) (cs : List VmCall) (w : World)
    → All InBounds w.db.vms
    → All InBounds (operate_all cfg cs w).1.db.vms
operate_all-bounds cfg cs w h = (operate_all-Keeps cfg cs).at w h
