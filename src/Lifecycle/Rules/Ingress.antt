-- ===== src/Lifecycle/Rules/Ingress.antt =====
-- The port forward that a request adds.
use mathlib.Core.Path.{subst}
use bap_web.Prelude.{
  ◌≤◌, ℤ, pos, negsuc, pos_part, String, Bool, true, false, ◌||◌, not, some, [], ◌∷◌, ◌++◌, map,
  any, ◌==◌, ◌=?◌, ◌≡◌, ◌⊎◌, refl, sym, arith, ap, ◌∙◌, eq_iff,
}
use bap_web.Model.{Vm, IngressRule, is_up}
use bap_web.Store.Db.{Db}
use bap_web.Config.{Config}
use bap_web.Store.Networks.{create_ingress_rule}
use bap_web.Store.Vms.{used_ssh_ports, refuse_clash}
use bap_web.World.{
  World, Result, ok, pure, when, refuse_if, perform, random_hex, time_now, ◌>>=◌, statement, modify,
}
use bap_web.Text.{to_lower, trim_space}
use bap_web.World.Keeps.{Keeps-when, ok-injective}
use bap_web.Lifecycle.Firewall.{apply_nft}
use bap_web.Lifecycle.Quiet.{Keeps-apply_nft}
use bap_web.Lifecycle.Vms.{the_vm}
use bap_web.Lifecycle.Vms.Rows.{the_vm-found, the_vm-Keeps}
use bap_web.Lifecycle.Vms.Outcome.{row_of}
use bap_web.Lifecycle.Alloc.{port_open}
use bap_web.Lifecycle.Rules.{is_port, new_rule, add_ingress_rule}
use bap_web.World.Steps.{bind-eq-ok, refuse_if-passed}

-- A rule that is written is added to the table, and its port and its id are new there.
pub create_ingress_rule-adds :
    (w : World) (rule : IngressRule)
    → (create_ingress_rule rule w).0 ≡ ok tt
    → ((create_ingress_rule rule w).1.db
        ≡ record w.db { ingress_rules = w.db.ingress_rules ++ rule ∷ [] })
      × (any (λ r. r.host_port == rule.host_port) w.db.ingress_rules ≡ false)
      × (any (λ r. r.id =? rule.id) w.db.ingress_rules ≡ false)
unfolding create_ingress_rule ◌>>=◌ statement refuse_clash modify
create_ingress_rule-adds w rule h = (ground arith, ground arith, ground arith)

-- What the checks establish of a rule that they let through. They write nothing.
record Checked (w v : World) (vm : Vm) (host guest : ℤ) (rule : IngressRule) : Type 0 where
  owner : rule.vm_id ≡ vm.id
  protocol : (rule.protocol ≡ "tcp") ⊎ (rule.protocol ≡ "udp")
  host_port : rule.host_port ≡ pos_part host
  guest_port : rule.guest_port ≡ pos_part guest
  no_ssh : any (λ u. u == rule.host_port) (map (λ r. r.ssh_port) w.db.vms) ≡ false
  db : v.db ≡ w.db

both : (b c : Bool) → (not b || not c) ≡ false → (b ≡ true) × (c ≡ true)
both true true h = (refl, refl)
both true false h = cc
both false c h = cc

new_rule-ports :
    (w : World) (vm : Vm) (protocol : String) (host guest : ℤ) (text : String) (rule : IngressRule)
    → (new_rule vm protocol host guest text w).0 ≡ ok rule
    → (is_port host ≡ true) × (is_port guest ≡ true)
unfolding new_rule
new_rule-ports w vm protocol host guest text rule h =
    let (_, _, _, k1) = bind-eq-ok (refuse_if _ _) _ w h in
    let (_, e2, _, _) = bind-eq-ok (refuse_if _ _) _ _ k1 in
    both (is_port host) (is_port guest) (refuse_if-passed _ _ _ e2)

new_rule-Checked :
    (w : World) (vm : Vm) (protocol : String) (host guest : ℤ) (text : String) (rule : IngressRule)
    → (new_rule vm protocol host guest text w).0 ≡ ok rule
    → Checked w (new_rule vm protocol host guest text w).1 vm host guest rule
unfolding new_rule ◌>>=◌ used_ssh_ports statement refuse_if port_open perform random_hex time_now
new_rule-Checked w vm protocol host guest text rule h =
    let kind = to_lower (trim_space protocol) in
    record {
      owner = ground arith;
      protocol = ground (arith, eq_iff kind "tcp", eq_iff kind "udp");
      host_port = ground arith;
      guest_port = ground arith;
      no_ssh = ground arith;
      db = ground arith;
    }

is_port-bounds : (p : ℤ) → is_port p ≡ true → (1 ≤ pos_part p) × (pos_part p ≤ 65535)
unfolding is_port
is_port-bounds (pos n) h = ground arith
is_port-bounds (negsuc n) h = ground arith

abbrev with_rule : IngressRule → Db → Db
with_rule rule d = record d { ingress_rules = d.ingress_rules ++ rule ∷ [] }

-- What a rule shows that was added, in terms of the database before and after.
pub record Added (w v : World) (vm_id : String) (rule : IngressRule) : Type 0 where
  pub vm : Vm
  pub owner : row_of w.db vm_id ≡ some vm
  pub owned : rule.vm_id ≡ vm.id
  pub protocol : (rule.protocol ≡ "tcp") ⊎ (rule.protocol ≡ "udp")
  pub host_port : (1 ≤ rule.host_port) × (rule.host_port ≤ 65535)
  pub guest_port : (1 ≤ rule.guest_port) × (rule.guest_port ≤ 65535)
  pub no_ssh : any (λ u. u == rule.host_port) (map (λ r. r.ssh_port) w.db.vms) ≡ false
  pub new : any (λ r. r.host_port == rule.host_port) w.db.ingress_rules ≡ false
  pub stored : v.db ≡ record w.db { ingress_rules = w.db.ingress_rules ++ rule ∷ [] }

pure-ok : (a b : IngressRule) (w : World) → (pure a w).0 ≡ ok b → a ≡ b
unfolding ◌>>=◌
pure-ok a b w h = ok-injective h

pure-world : (a : IngressRule) (w : World) → pure a w ≡ (ok a, w)
unfolding ◌>>=◌
pure-world a w = refl

-- A port forward that is added belongs to a machine that exists and carries one of the two
-- protocols between two port numbers. Its port on the host is no machine's SSH port and no other
-- forward's, and the row of the forward is all that the database gains.
pub add_ingress_rule-Added :
    (cfg : Config) (w : World) (vm_id protocol : String) (host guest : ℤ) (text : String)
    (rule : IngressRule)
    → (add_ingress_rule cfg vm_id protocol host guest text w).0 ≡ ok rule
    → Added w (add_ingress_rule cfg vm_id protocol host guest text w).1 vm_id rule
unfolding add_ingress_rule
add_ingress_rule-Added cfg w vm_id protocol host guest text rule h =
    let (vm, e1, first, k1) = bind-eq-ok (the_vm vm_id) _ w h in
    let w1 = (the_vm vm_id w).1 in
    let kept = (the_vm-Keeps {P = λ _ d. d ≡ w.db} vm_id).at w refl in
    let (made, e2, second, k2) = bind-eq-ok (new_rule vm protocol host guest text) _ w1 k1 in
    let w2 = (new_rule vm protocol host guest text w1).1 in
    let c = new_rule-Checked w1 vm protocol host guest text made e2 in
    let (_, e3, third, k3) = bind-eq-ok (create_ingress_rule made) _ w2 k2 in
    let w3 = (create_ingress_rule made w2).1 in
    let (wrote, new, _) = create_ingress_rule-adds w2 made e3 in
    let (_, e4, fourth, k4) = bind-eq-ok (when (is_up vm.state) (apply_nft cfg)) _ w3 k3 in
    let kept4 =
      (Keeps-when {P = λ _ d. d ≡ w3.db} (is_up vm.state) _ (Keeps-apply_nft cfg)).at w3 refl in
    let w4 = (when (is_up vm.state) (apply_nft cfg) w3).1 in
    let same : made ≡ rule = pure-ok made rule w4 k4 in
    let (host_ok, guest_ok) = new_rule-ports w1 vm protocol host guest text made e2 in
    let before = c.db ∙ kept in
    let added : Added w w4 vm_id made = record {
      vm = vm;
      owner = the_vm-found vm_id w vm e1;
      owned = c.owner;
      protocol = c.protocol;
      host_port = rw c.host_port (is_port-bounds host host_ok);
      guest_port = rw c.guest_port (is_port-bounds guest guest_ok);
      no_ssh =
          subst (λ d. any (λ u. u == made.host_port) (map (λ r. r.ssh_port) d.vms) ≡ false) kept
            c.no_ssh;
      new =
          subst (λ d. any (λ r. r.host_port == made.host_port) d.ingress_rules ≡ false) before new;
      stored = kept4 ∙ wrote ∙ ap (with_rule made) before;
    } in
    subst (λ r. Added w (add_ingress_rule cfg vm_id protocol host guest text w).1 vm_id r) same
      (subst (λ (x : Result IngressRule × World). Added w x.1 vm_id made)
        (sym (first ∙ second ∙ third ∙ fourth ∙ pure-world made w4)) added)
