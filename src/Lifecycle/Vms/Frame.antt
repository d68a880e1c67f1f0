-- ===== src/Lifecycle/Vms/Frame.antt =====
-- An operation on one virtual machine leaves the rows of the others as they are.
use mathlib.Core.Path.{subst}
use bap_web.Prelude.{String, ◌≡◌, refl, find-passes, ◌∙◌, List, true, eq_iff}
use bap_web.Model.{Vm}
use bap_web.Config.{Config}
use bap_web.Store.Db.{Db}
use bap_web.Store.Table.{delete, update}
use bap_web.Store.Table.Laws.{delete-update, delete-delete}
use bap_web.Store.Vms.{has_id, update_vm, delete_vm}
use bap_web.Store.Keeps.{Keeps-refuse_clash}
use bap_web.World.{Env, World}
use bap_web.World.Keeps.{
  Keeps, Keeps-bind, Keeps-gets, Keeps-time_now, Keeps-statement, Keeps-modify,
}
use bap_web.Lifecycle.Vms.Calls.{VmCall, target, operate, operate-Keeps}
use bap_web.Lifecycle.Vms.Rows.{RowLaw, the_vm-found}

-- The rows but those with the id are these.
abbrev Others : String → List Vm → Env → Db → Type 0
Others id rest env d = delete (has_id id) d.vms ≡ rest

is_id : (id : String) (vm : Vm) → vm.id ≡ id → has_id id vm ≡ true
unfolding has_id
is_id id vm e = (eq_iff vm.id id).1 e

same_id : (id : String) (vm : Vm) → has_id id vm ≡ true → vm.id ≡ id
unfolding has_id
same_id id vm e = (eq_iff vm.id id).0 e

others-update :
    (id : String) (row : Vm) (rows : List Vm)
    → row.id ≡ id
    → delete (has_id id) (update (has_id row.id) (λ _. row) rows) ≡ delete (has_id id) rows
others-update id row rows q =
    subst (λ k. delete (has_id k) (update (has_id row.id) (λ _. row) rows) ≡ delete (has_id k) rows)
      q (delete-update (has_id row.id) (λ _. row) rows (λ _. is_id row.id row refl))

frame-law : (id : String) (rest : List Vm) → RowLaw id (Others id rest) (λ vm. vm.id ≡ id)
unfolding update_vm
frame-law id rest = record {
  reads = record {
    gives =
        λ w h vm e. same_id id vm (find-passes (has_id id) w.db.vms vm (the_vm-found id w vm e));
  };
  edits = λ vm vm' i c m q. i ∙ q;
  resizes = λ vm c m within q. q;
  writes = λ vm q. Keeps-bind _ _ Keeps-time_now λ now. Keeps-bind _ _ Keeps-statement λ _.
      Keeps-bind _ _ (Keeps-gets _) λ rows. Keeps-bind _ _ (Keeps-refuse_clash _) λ _.
        Keeps-modify _ λ env d h. others-update id (record vm { updated_at = now }) d.vms q ∙ h;
}

delete_vm-Others : (id : String) (rest : List Vm) → Keeps (Others id rest) (delete_vm id)
unfolding delete_vm
delete_vm-Others id rest = Keeps-bind _ _ Keeps-statement λ _.
    Keeps-bind _ _ (Keeps-modify _ λ env d h. h) λ _. Keeps-bind _ _ Keeps-statement λ _.
      Keeps-bind _ _ (Keeps-modify _ λ env d h. h) λ _.
        Keeps-bind _ _ Keeps-statement
          λ _. Keeps-modify _ λ env d h. delete-delete (has_id id) d.vms ∙ h

-- A call that starts, stops, restarts, resizes or deletes a virtual machine leaves the rows of all
-- other machines as they were and in their order, whether it succeeds or fails.
pub operate-others :
    (cfg : Config) (c : VmCall) (w : World)
    → delete (has_id (target c)) (operate cfg c w).1.db.vms ≡ delete (has_id (target c)) w.db.vms
operate-others cfg c w =
    (operate-Keeps cfg c (frame-law (target c) _) (delete_vm-Others (target c) _)).at w refl
