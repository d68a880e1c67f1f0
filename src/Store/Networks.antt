-- ===== src/Store/Networks.antt =====
-- internal/store/store.go: shared networks, port forwards and egress policies.
use Prim.Native.String
use bap_web.Prelude.{
  ℕ, String, ◌&&◌, not, Option, none, some, List, [], ◌∷◌, ◌++◌, any, find, ltb, ◌==◌, ◌=?◌,
  if◌then◌else◌,
}
use bap_web.Text.{itoa}
use bap_web.Errors.{Error}
use bap_web.Model.{Network, IngressRule, EgressPolicy}
use bap_web.Store.Table.{delete, count, order_by}
use bap_web.Store.Vms.{refuse_clash}
use bap_web.World.{M, gets, ◌>>=◌, ◌>>◌, statement, modify, refuse_if}

-- "network is assigned to 2 VM(s)"
pub assigned : String → ℕ → Error
assigned what used =
    Error.plain
      (String.◌++◌ what (String.◌++◌ " is assigned to " (String.◌++◌ (itoa used) " VM(s)")))

unfoldable pub create_network : Network → M (Unit {0})
create_network n = do
  statement
  rows ← gets (λ w. w.db.networks)
  refuse_clash (
      if any (λ r. r.id =? n.id) rows
      then some "networks.id"
      else if any (λ r. r.name =? n.name) rows
      then some "networks.name"
      else if any (λ r. r.cidr =? n.cidr) rows
      then some "networks.cidr"
      else none)
  modify (λ d. record d { networks = d.networks ++ n ∷ [] })

unfoldable pub list_networks : M (List Network)
list_networks = do
  statement
  gets (λ w. order_by (λ a b. w.env.created_before b.created_at a.created_at) w.db.networks)

unfoldable pub get_network : String → M (Option Network)
get_network id = do statement; gets (λ w. find (λ r. r.id =? id) w.db.networks)

-- A network that a virtual machine uses stays.
unfoldable pub delete_network : String → M (Unit {0})
unfolding assigned
delete_network id = do
  statement
  used ← gets (λ w. count (λ r. r.network_id =? id) w.db.vms)
  refuse_if (ltb 0 used) (assigned "network" used)
  statement
  modify (λ d. record d { networks = delete (λ r. r.id =? id) d.networks })

unfoldable pub create_ingress_rule : IngressRule → M (Unit {0})
create_ingress_rule rule = do
  statement
  rows ← gets (λ w. w.db.ingress_rules)
  refuse_clash (
      if any (λ r. r.id =? rule.id) rows
      then some "ingress_rules.id"
      else if any (λ r. r.host_port == rule.host_port) rows
      then some "ingress_rules.host_port"
      else none)
  modify (λ d. record d { ingress_rules = d.ingress_rules ++ rule ∷ [] })

-- `WHERE vm_id = ? ORDER BY host_port`
unfoldable pub list_ingress_rules : String → M (List IngressRule)
list_ingress_rules vm_id = do
  statement
  gets (λ w.
      order_by (λ a b. ltb a.host_port b.host_port)
        (delete (λ r. not (r.vm_id =? vm_id)) w.db.ingress_rules))

unfoldable pub delete_ingress_rule : String → String → M (Unit {0})
delete_ingress_rule vm_id id = do
  statement
  modify (λ d. record d {
    ingress_rules = delete (λ r. r.vm_id =? vm_id && r.id =? id) d.ingress_rules;
  })

unfoldable pub create_egress_policy : EgressPolicy → M (Unit {0})
create_egress_policy p = do
  statement
  rows ← gets (λ w. w.db.egress_policies)
  refuse_clash (
      if any (λ r. r.id =? p.id) rows
      then some "egress_policies.id"
      else if any (λ r. r.name =? p.name) rows
      then some "egress_policies.name"
      else none)
  modify (λ d. record d { egress_policies = d.egress_policies ++ p ∷ [] })

unfoldable pub get_egress_policy : String → M (Option EgressPolicy)
get_egress_policy id = do statement; gets (λ w. find (λ r. r.id =? id) w.db.egress_policies)

-- A policy that a virtual machine uses stays.
unfoldable pub delete_egress_policy : String → M (Unit {0})
unfolding assigned
delete_egress_policy id = do
  statement
  used ← gets (λ w. count (λ r. r.egress_policy_id =? id) w.db.vms)
  refuse_if (ltb 0 used) (assigned "egress policy" used)
  statement
  modify (λ d. record d { egress_policies = delete (λ r. r.id =? id) d.egress_policies })
