-- ===== src/Store/Vms.antt =====
-- internal/store/store.go: the table of virtual machines and what other tables hold about them.
use Prim.Native.String
use bap_web.Prelude.{
  ℕ, String, Bool, Option, none, some, List, [], ◌∷◌, ◌++◌, map, any, find, ◌==◌, ◌=?◌,
  if◌then◌else◌,
}
use bap_web.Errors.{Error}
use bap_web.Model.{Vm}
use bap_web.Store.Table.{update, delete, order_by}
use bap_web.World.{M, pure, raise, gets, ◌>>=◌, ◌>>◌, statement, time_now, modify}

-- How SQLite reports that a UNIQUE column would hold a value twice.
abbrev pub unique_error : String → Error
unique_error column = Error.plain (String.◌++◌ "UNIQUE constraint failed: " column)

-- `if column, violated := …` of the UNIQUE columns: the first that the row would repeat.
unfoldable pub refuse_clash : Option String → M (Unit {0})
refuse_clash none = pure tt
refuse_clash (some column) = raise (unique_error column)

unfoldable pub has_id : String → Vm → Bool
has_id id r = r.id =? id

-- The UNIQUE columns of the table `vms`, against the other rows.
unfoldable pub vms_clash : Vm → List Vm → Option String
vms_clash vm others =
    if any (λ r. r.name =? vm.name) others
    then some "vms.name"
    else if any (λ r. r.ssh_port == vm.ssh_port) others
    then some "vms.ssh_port"
    else if any (λ r. r.tap_name =? vm.tap_name) others
    then some "vms.tap_name"
    else if any (λ r. r.guest_ip =? vm.guest_ip) others
    then some "vms.guest_ip"
    else none

unfoldable pub list_vms : M (List Vm)
list_vms = do
  statement
  gets (λ w. order_by (λ a b. w.env.created_before b.created_at a.created_at) w.db.vms)

unfoldable pub get_vm : String → M (Option Vm)
unfolding has_id
get_vm id = do statement; gets (λ w. find (has_id id) w.db.vms)

unfoldable pub get_vm_by_name : String → M (Option Vm)
get_vm_by_name name = do statement; gets (λ w. find (λ r. r.name =? name) w.db.vms)

unfoldable pub create_vm : Vm → M (Unit {0})
unfolding has_id vms_clash
create_vm vm = do
  statement
  rows ← gets (λ w. w.db.vms)
  refuse_clash (if any (has_id vm.id) rows then some "vms.id" else vms_clash vm rows)
  modify (λ d. record d { vms = d.vms ++ vm ∷ [] })

-- Where no row has the id, nothing is written and nothing fails.
unfoldable pub update_vm : Vm → M (Unit {0})
unfolding has_id vms_clash
update_vm vm = do
  now ← time_now
  let row = record vm { updated_at = now }
  statement
  rows ← gets (λ w. w.db.vms)
  refuse_clash
      (if any (has_id row.id) rows then vms_clash row (delete (has_id row.id) rows) else none)
  modify (λ d. record d { vms = update (has_id row.id) (λ _. row) d.vms })

unfoldable pub delete_vm : String → M (Unit {0})
unfolding has_id
delete_vm id = do
  statement
  modify (λ d. record d { ingress_rules = delete (λ r. r.vm_id =? id) d.ingress_rules })
  statement
  modify (λ d. record d { vm_exec_jobs = delete (λ j. j.vm_id =? id) d.vm_exec_jobs })
  statement
  modify (λ d. record d { vms = delete (has_id id) d.vms })

unfoldable pub used_ssh_ports : M (List ℕ)
used_ssh_ports = do statement; gets (λ w. map (λ r. r.ssh_port) w.db.vms)

unfoldable pub used_ingress_host_ports : M (List ℕ)
used_ingress_host_ports = do statement; gets (λ w. map (λ r. r.host_port) w.db.ingress_rules)

unfoldable pub used_guest_ips : M (List String)
used_guest_ips = do statement; gets (λ w. map (λ r. r.guest_ip) w.db.vms)
