-- ===== src/Store/Keeps.antt =====
-- The queries of the store write nothing.
use bap_web.Prelude.{String, Option, none, some}
use bap_web.Store.Db.{Db}
use bap_web.World.{Env}
use bap_web.World.Keeps.{Keeps, keeps_rules}
use bap_web.Store.Vms.{
  refuse_clash, list_vms, get_vm, get_vm_by_name, used_ssh_ports, used_ingress_host_ports,
  used_guest_ips,
}
use bap_web.Store.Networks.{list_networks, get_network, list_ingress_rules, get_egress_policy}
use bap_web.Store.Access.{
  has_users, user_by_username, user_by_id, session_by_id, get_api_token_by_id,
  get_api_token_by_hash, get_ssh_key,
}

module _ {P : Env → Db → Type 0} where
  pub Keeps-refuse_clash : (o : Option String) → Keeps P (refuse_clash o)
  unfolding refuse_clash
  Keeps-refuse_clash none = search keeps_rules
  Keeps-refuse_clash (some column) = search keeps_rules

  pub Keeps-list_vms : Keeps P list_vms
  unfolding list_vms
  Keeps-list_vms = search keeps_rules

  pub Keeps-get_vm : (key : String) → Keeps P (get_vm key)
  unfolding get_vm
  Keeps-get_vm key = search keeps_rules

  pub Keeps-get_vm_by_name : (key : String) → Keeps P (get_vm_by_name key)
  unfolding get_vm_by_name
  Keeps-get_vm_by_name key = search keeps_rules

  pub Keeps-used_ssh_ports : Keeps P used_ssh_ports
  unfolding used_ssh_ports
  Keeps-used_ssh_ports = search keeps_rules

  pub Keeps-used_ingress_host_ports : Keeps P used_ingress_host_ports
  unfolding used_ingress_host_ports
  Keeps-used_ingress_host_ports = search keeps_rules

  pub Keeps-used_guest_ips : Keeps P used_guest_ips
  unfolding used_guest_ips
  Keeps-used_guest_ips = search keeps_rules

  pub Keeps-list_networks : Keeps P list_networks
  unfolding list_networks
  Keeps-list_networks = search keeps_rules

  pub Keeps-get_network : (key : String) → Keeps P (get_network key)
  unfolding get_network
  Keeps-get_network key = search keeps_rules

  pub Keeps-list_ingress_rules : (key : String) → Keeps P (list_ingress_rules key)
  unfolding list_ingress_rules
  Keeps-list_ingress_rules key = search keeps_rules

  pub Keeps-get_egress_policy : (key : String) → Keeps P (get_egress_policy key)
  unfolding get_egress_policy
  Keeps-get_egress_policy key = search keeps_rules

  pub Keeps-has_users : Keeps P has_users
  unfolding has_users
  Keeps-has_users = search keeps_rules

  pub Keeps-user_by_username : (key : String) → Keeps P (user_by_username key)
  unfolding user_by_username
  Keeps-user_by_username key = search keeps_rules

  pub Keeps-user_by_id : (key : String) → Keeps P (user_by_id key)
  unfolding user_by_id
  Keeps-user_by_id key = search keeps_rules

  pub Keeps-session_by_id : (key : String) → Keeps P (session_by_id key)
  unfolding session_by_id
  Keeps-session_by_id key = search keeps_rules

  pub Keeps-get_api_token_by_id : (key : String) → Keeps P (get_api_token_by_id key)
  unfolding get_api_token_by_id
  Keeps-get_api_token_by_id key = search keeps_rules

  pub Keeps-get_api_token_by_hash : (key : String) → Keeps P (get_api_token_by_hash key)
  unfolding get_api_token_by_hash
  Keeps-get_api_token_by_hash key = search keeps_rules

  pub Keeps-get_ssh_key : (key : String) → Keeps P (get_ssh_key key)
  unfolding get_ssh_key
  Keeps-get_ssh_key key = search keeps_rules

pub ruleset query_rules = (
  keeps_rules, Keeps-refuse_clash, Keeps-list_vms, Keeps-get_vm, Keeps-get_vm_by_name,
  Keeps-used_ssh_ports, Keeps-used_ingress_host_ports, Keeps-used_guest_ips, Keeps-list_networks,
  Keeps-get_network, Keeps-list_ingress_rules, Keeps-get_egress_policy, Keeps-has_users,
  Keeps-user_by_username, Keeps-user_by_id, Keeps-session_by_id, Keeps-get_api_token_by_id,
  Keeps-get_api_token_by_hash, Keeps-get_ssh_key,
)
