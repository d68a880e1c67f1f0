-- ===== src/Lifecycle/Vms/Failure.antt =====
-- What remains of an operation that stops a machine, and of a start that fails.
use mathlib.Core.Path.{subst}
use bap_web.Prelude.{ℕ, String, some, ◌≡◌, refl, sym, ◌∙◌}
use bap_web.Model.{Vm, VmState}
use bap_web.Config.{Config}
use bap_web.Store.Db.{Db}
use bap_web.Store.Vms.{update_vm}
use bap_web.World.{World, Result, ok, err, try, ◌>>=◌, time_now, attempt}
use bap_web.World.Keeps.{Keeps-try, Keeps-attempt, Keeps-time_now}
use bap_web.World.Steps.{bind-eq-ok}
use bap_web.Lifecycle.Cleanup.{cleanup_vm_runtime}
use bap_web.Lifecycle.Firewall.{apply_nft, returned}
use bap_web.Lifecycle.Quiet.{Keeps-cleanup_vm_runtime, Keeps-apply_nft, Keeps-returned}
use bap_web.Lifecycle.Vms.{the_vm, settle, stop_vm, kill_vm, lifecycle_error_string}
use bap_web.Lifecycle.Vms.Rows.{the_vm-found, the_vm-Keeps, kill_vm-Keeps}
use bap_web.Lifecycle.Vms.Outcome.{row_of, Has, update_vm-Has, update_vm-row, vm_id}

-- The machine's row is there in this state, with this message.
pub record Shows (d : Db) (id : String) (s : VmState) (text : String) : Type 0 where
  pub row : Vm
  pub found : row_of d id ≡ some row
  pub state : row.state ≡ s
  pub last_error : row.last_error ≡ text

-- The row is there as written, but for the time that the write puts in.
record Writes (row : Vm) (d : Db) : Type 0 where
  at : ℕ
  found : row_of d row.id ≡ some (record row { updated_at = at })

returned-ok :
    (r : Result (Unit {0})) (w : World) → (returned r w).0 ≡ ok tt → lifecycle_error_string r ≡ ""
unfolding ◌>>=◌
returned-ok (ok _) w h = refl
returned-ok (err e) w h = cc

settle-Shows :
    (cfg : Config) (w : World) (row : Vm) (r : Result (Unit {0}))
    → Has row.id w.env w.db
    → (settle cfg row r w).0 ≡ ok tt
    → (lifecycle_error_string r ≡ "") × Writes row (settle cfg row r w).1.db
unfolding settle
settle-Shows cfg w row r has h =
    let (_, e, first, k) = bind-eq-ok (update_vm row) _ w h in
    let w1 = (update_vm row w).1 in
    let written : Vm = record row { updated_at = w.env.clock w.step } in
    let shown = update_vm-row w row has e in
    let (_, _, second, k2) = bind-eq-ok (apply_nft cfg) _ w1 k in
    let w2 = (apply_nft cfg w1).1 in
    let shown2 = (Keeps-apply_nft {P = λ _ d. row_of d row.id ≡ some written} cfg).at w1 shown in
    let shown3 = (Keeps-returned {P = λ _ d. row_of d row.id ≡ some written} r).at w2 shown2 in
    (returned-ok r w2 k2, record { at = w.env.clock w.step; found = rw (first, second) shown3 })

-- After a stop that succeeds, the machine's row says that it is stopped and shows no error.
pub stop_vm-stopped :
    (cfg : Config) (w : World) (id : String)
    → (stop_vm cfg id w).0 ≡ ok tt
    → Shows (stop_vm cfg id w).1.db id VmState.stopped ""
unfolding stop_vm
stop_vm-stopped cfg w id h =
    let (vm, e1, first, k1) = bind-eq-ok (the_vm id) _ w h in
    let w1 = (the_vm id w).1 in
    let found =
      (the_vm-Keeps {P = λ _ d. row_of d id ≡ some vm} id).at w (the_vm-found id w vm e1) in
    let same = vm_id w id vm e1 in
    let has1 : Has vm.id w1.env w1.db = rw (same, found) refl in
    let stopping : Vm = record vm { state = VmState.stopping } in
    let (_, _, second, k2) = bind-eq-ok (attempt (update_vm stopping)) _ w1 k1 in
    let w2 = (attempt (update_vm stopping) w1).1 in
    let has2 = (Keeps-attempt {P = Has vm.id} _ (update_vm-Has vm.id stopping)).at w1 has1 in
    let (_, _, third, k3) = bind-eq-ok (kill_vm cfg vm) _ w2 k2 in
    let w3 = (kill_vm cfg vm w2).1 in
    let has3 = (kill_vm-Keeps {P = Has vm.id} cfg vm).at w2 has2 in
    let (r, _, fourth, k4) = bind-eq-ok (try (cleanup_vm_runtime cfg vm)) _ w3 k3 in
    let w4 = (try (cleanup_vm_runtime cfg vm) w3).1 in
    let has4 = (Keeps-try {P = Has vm.id} _ (Keeps-cleanup_vm_runtime cfg vm)).at w3 has3 in
    let (now, _, fifth, k5) = bind-eq-ok time_now _ w4 k4 in
    let w5 = (time_now w4).1 in
    let has5 = (Keeps-time_now {P = Has vm.id}).at w4 has4 in
    let row : Vm = record vm {
      state = VmState.stopped;
      last_stopped_at = some now;
      updated_at = now;
      last_error = lifecycle_error_string r;
    } in
    let (clean, wrote) = settle-Shows cfg w5 row r has5 k5 in
    let written : Vm = record row { updated_at = wrote.at } in
    let shows : Shows (settle cfg row r w5).1.db id VmState.stopped "" = record {
      row = written;
      found = subst (λ k. row_of (settle cfg row r w5).1.db k ≡ some written) same wrote.found;
      state = refl;
      last_error = clean;
    } in
    subst (λ (x : Result (Unit {0}) × World). Shows x.1.db id VmState.stopped "")
      (sym (first ∙ second ∙ third ∙ fourth ∙ fifth)) shows
