-- ===== src/Lifecycle/Vms/Outcome.antt =====
-- What the row of a virtual machine says once an operation has ended.
use mathlib.Core.Path.{subst}
use bap_web.Prelude.{
  sym, ap, is_some, is_some-map, ℕ, String, Bool, true, false, Option, some, List, ◌≡◌, refl, find,
  arith, Option-cases, inl, inr, find-passes, eq_iff, ◌∙◌, if◌then◌else◌,
}
use mathlib.Core.Option
use bap_web.Model.{Vm, VmState, is_running}
use bap_web.Config.{Config}
use bap_web.Store.Db.{Db}
use bap_web.Store.Table.{update}
use bap_web.Store.Table.Laws.{find-update}
use bap_web.Store.Vms.{has_id, update_vm, refuse_clash}
use bap_web.World.{
  Env, World, Result, ok, err, try, ◌>>=◌, time_now, statement, modify, pure, refuse_if,
}
use bap_web.World.Keeps.{
  Keeps, Keeps-bind, Keeps-gets, Keeps-try, Keeps-time_now, Keeps-statement, Keeps-modify,
}
use bap_web.Store.Keeps.{query_rules, Keeps-refuse_clash}
use bap_web.Lifecycle.Quiet.{Keeps-ensure_vm_network_usable}
use bap_web.Lifecycle.Overlap.{ensure_vm_network_usable}
use bap_web.World.Steps.{bind-eq-ok}
use bap_web.Lifecycle.Vms.{
  the_vm, ensure_tap_name, already_running, start_vm, bring_up, launch, launched, fail_vm,
}
use bap_web.Lifecycle.Vms.Rows.{the_vm-found, the_vm-Keeps, already_running-Keeps, launch-Keeps}

-- The row with the id.
abbrev pub row_of : Db → String → Option Vm
row_of d id = find (has_id id) d.vms

-- The machine has a row.
abbrev pub Has : String → Env → Db → Type 0
Has id env d = is_some (row_of d id) ≡ true

same-test : (id : String) (row r : Vm) → has_id row.id r ≡ true → has_id id row ≡ has_id id r
unfolding has_id
same-test id row r e = rw ((eq_iff r.id row.id).0 e) refl

row-updated :
    (d : List Vm) (id : String) (row : Vm)
    → find (has_id id) (update (has_id row.id) (λ _. row) d)
      ≡ Option.map (λ r. if has_id row.id r then row else r) (find (has_id id) d)
row-updated d id row =
    find-update (has_id id) (has_id row.id) (λ _. row) d (λ r hit. same-test id row r hit)

pub update_vm-Has : (id : String) (vm : Vm) → Keeps (Has id) (update_vm vm)
unfolding update_vm
update_vm-Has id vm = Keeps-bind _ _ Keeps-time_now λ now. Keeps-bind _ _ Keeps-statement λ _.
    Keeps-bind _ _ (Keeps-gets _) λ rows. Keeps-bind _ _ (Keeps-refuse_clash _) λ _.
      Keeps-modify _ λ env d h.
        ap is_some (row-updated d.vms id (record vm { updated_at = now })) ∙ is_some-map _ _ h

pub update_vm-writes :
    (w : World) (vm : Vm)
    → (update_vm vm w).0 ≡ ok tt
    → (update_vm vm w).1.db.vms
      ≡ update (has_id vm.id) (λ _. record vm { updated_at = w.env.clock w.step }) w.db.vms
unfolding update_vm ◌>>=◌ time_now statement refuse_clash modify
update_vm-writes w vm h = ground arith

-- What a write that succeeds leaves of the row that it is for.
pub update_vm-row :
    (w : World) (vm : Vm)
    → Has vm.id w.env w.db
    → (update_vm vm w).0 ≡ ok tt
    → row_of (update_vm vm w).1.db vm.id ≡ some (record vm { updated_at = w.env.clock w.step })
update_vm-row w vm there h = elim (Option-cases (row_of w.db vm.id)) [
  | inl missing ↦ absurd (ground arith)
  | inr (old, found) ↦
      let row : Vm = record vm { updated_at = w.env.clock w.step } in
      rw (update_vm-writes w vm h) (
        row-updated w.db.vms vm.id row
        ∙ rw (found, find-passes (has_id vm.id) w.db.vms old found) refl)
]

-- The row is that of the machine, which runs.
pub record Runs (d : Db) (id : String) : Type 0 where
  pub row : Vm
  pub found : row_of d id ≡ some row
  pub state : row.state ≡ VmState.running

launched-running :
    (w : World) (vm : Vm) (t : ℕ) (r : Result (Unit {0}))
    → Has vm.id w.env w.db
    → (launched vm t r w).0 ≡ ok tt
    → Runs (launched vm t r w).1.db vm.id
launched-running w vm t (err e) there h = absurd (unfold fail_vm ◌>>=◌ in ground arith)
launched-running w vm t (ok _) there h =
    let (now, e, all, k) = bind-eq-ok time_now _ w h in
    let v = (time_now w).1 in
    let row : Vm = record vm {
      state = VmState.running;
      last_started_at = some t;
      updated_at = now;
    } in
    record {
      row = record row { updated_at = v.env.clock v.step };
      found = rw all (update_vm-row v row ((Keeps-time_now {P = Has vm.id}).at w there) k);
      state = refl;
    }

bring_up-running :
    (cfg : Config) (w : World) (vm : Vm)
    → Has vm.id w.env w.db
    → (bring_up cfg vm w).0 ≡ ok tt
    → Runs (bring_up cfg vm w).1.db vm.id
unfolding bring_up
bring_up-running cfg w vm there h =
    let (now, _, first, k) = bind-eq-ok time_now _ w h in
    let starting : Vm = record vm { state = VmState.starting; last_error = ""; updated_at = now } in
    let w1 = (time_now w).1 in
    let there1 = (Keeps-time_now {P = Has vm.id}).at w there in
    let (_, _, second, k2) = bind-eq-ok (update_vm starting) _ w1 k in
    let w2 = (update_vm starting w1).1 in
    let there2 = (update_vm-Has vm.id starting).at w1 there1 in
    let (r, _, third, k3) = bind-eq-ok (try (launch cfg starting)) _ w2 k2 in
    let w3 = (try (launch cfg starting) w2).1 in
    let there3 =
      (Keeps-try {P = Has vm.id} (launch cfg starting) (launch-Keeps cfg starting)).at w2 there2 in
    let r = launched-running w3 starting now r there3 k3 in
    record { row = r.row; found = rw (first, second, third) r.found; state = r.state }

pub vm_id : (w : World) (id : String) (vm : Vm) → (the_vm id w).0 ≡ ok vm → vm.id ≡ id
unfolding has_id
vm_id w id vm e = (eq_iff vm.id id).0 (find-passes (has_id id) w.db.vms vm (the_vm-found id w vm e))

ensure_tap_name-Has : (id : String) (vm : Vm) → Keeps (Has id) (ensure_tap_name vm)
unfolding ensure_tap_name
ensure_tap_name-Has id vm = search (query_rules, update_vm-Has)

ensure_tap_name-id :
    (w : World) (vm named : Vm) → (ensure_tap_name vm w).0 ≡ ok named → named.id ≡ vm.id
unfolding ensure_tap_name ◌>>=◌ refuse_if
ensure_tap_name-id w vm named h = ground arith

-- The name of a machine that runs is not changed.
ensure_tap_name-running :
    (w : World) (vm named : Vm)
    → (ensure_tap_name vm w).0 ≡ ok named
    → is_running named.state ≡ true
    → (named ≡ vm) × ((ensure_tap_name vm w).1 ≡ w)
unfolding ensure_tap_name ◌>>=◌ refuse_if
ensure_tap_name-running w vm named h runs = ground arith

already_running-state :
    (w : World) (vm : Vm) → (already_running vm w).0 ≡ ok true → is_running vm.state ≡ true
unfolding already_running ◌>>=◌
already_running-state w vm h = ground arith

is_running-running : (s : VmState) → is_running s ≡ true → s ≡ VmState.running
is_running-running VmState.running e = refl
is_running-running VmState.stopped e = cc
is_running-running VmState.starting e = cc
is_running-running VmState.stopping e = cc
is_running-running VmState.error e = cc

started :
    (cfg : Config) (w : World) (vm : Vm) (id : String) (runs : Bool)
    → vm.id ≡ id
    → Has id w.env w.db
    → (runs ≡ true → Runs w.db id)
    → ((if runs then pure tt else bring_up cfg vm) w).0 ≡ ok tt
    → Runs ((if runs then pure tt else bring_up cfg vm) w).1.db id
unfolding ◌>>=◌
started cfg w vm id true same there r h = r refl
started cfg w vm id false same there r h =
    subst (λ k. Runs (bring_up cfg vm w).1.db k) same (bring_up-running cfg w vm (rw same there) h)

-- After a start that succeeds, the machine's row is there and says that it runs, also where the
-- machine ran before.
pub start_vm-running :
    (cfg : Config) (w : World) (id : String)
    → (start_vm cfg id w).0 ≡ ok tt
    → Runs (start_vm cfg id w).1.db id
unfolding start_vm
start_vm-running cfg w id h =
    let (vm, e1, first, k1) = bind-eq-ok (the_vm id) _ w h in
    let w1 = (the_vm id w).1 in
    let found =
      (the_vm-Keeps {P = λ _ d. row_of d id ≡ some vm} id).at w (the_vm-found id w vm e1) in
    let (named, e2, second, k2) = bind-eq-ok (ensure_tap_name vm) _ w1 k1 in
    let w2 = (ensure_tap_name vm w1).1 in
    let there : Has id w2.env w2.db = (ensure_tap_name-Has id vm).at w1 (rw found refl) in
    let (_, e3, third, k3) = bind-eq-ok (ensure_vm_network_usable named) _ w2 k2 in
    let w3 = (ensure_vm_network_usable named w2).1 in
    let (runs, e4, fourth, k4) = bind-eq-ok (already_running named) _ w3 k3 in
    let w4 = (already_running named w3).1 in
    let keeps : (P : Env → Db → Type 0) → P w2.env w2.db → P w4.env w4.db = λ P p.
      (already_running-Keeps {P = P} named).at w3
        ((Keeps-ensure_vm_network_usable {P = P} named).at w2 p) in
    let same = ensure_tap_name-id w1 vm named e2 ∙ vm_id w id vm e1 in
    let r =
      started cfg w4 named id runs same (keeps (Has id) there)
        (λ yes.
          let up = already_running-state w3 named (e4 ∙ ap ok yes) in
          let (kept, still) = ensure_tap_name-running w1 vm named e2 up in
          let here : row_of w2.db id ≡ some vm = rw still found in
          record {
            row = vm;
            found = keeps (λ _ d. row_of d id ≡ some vm) here;
            state = is_running-running vm.state (ap (λ v. is_running v.state) (sym kept) ∙ up);
          })
        k4 in
    record { row = r.row; found = rw (first, second, third, fourth) r.found; state = r.state }
