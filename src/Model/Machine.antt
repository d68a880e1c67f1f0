-- ===== src/Model/Machine.antt =====
-- internal/model/model.go: virtual machines, networks, port forwards and egress policies.
use bap_web.Prelude.{ℕ, String, Bool, true, false, Option, ℤ}

pub data VmState : Type 0 where
  stopped running starting stopping error : VmState

pub VmState-discrete : Discrete VmState
VmState-discrete = hlevel

abbrev pub is_running : VmState → Bool
is_running VmState.running = true
is_running _ = false

-- `vm.State == VMRunning || vm.State == VMStarting`
abbrev pub is_up : VmState → Bool
is_up VmState.running = true
is_up VmState.starting = true
is_up _ = false

pub record Vm : Type 0 where
  pub id : String
  pub name : String
  pub state : VmState
  pub vcpu_count : ℤ
  pub mem_mib : ℤ
  pub ssh_port : ℕ
  pub tap_name : String
  pub host_ip : String
  pub guest_ip : String
  pub cidr : ℕ
  pub kernel_path : String
  pub kernel_id : String
  pub rootfs_path : String
  pub base_rootfs_path : String
  pub base_image_id : String
  pub rootfs_size_mib : ℤ
  pub dev_user : String
  pub ssh_key_id : String
  pub managed_ssh_public_key : String
  pub managed_ssh_private_key_path : String
  pub extra_authorized_keys : String
  pub repo_url : String
  pub git_ref : String
  pub egress_mode : String
  pub egress_policy_id : String
  pub network_mode : String
  pub network_id : String
  pub last_error : String
  pub created_at : ℕ
  pub updated_at : ℕ
  pub last_started_at : Option ℕ
  pub last_stopped_at : Option ℕ

pub record Network : Type 0 where
  pub id : String
  pub name : String
  pub cidr : String
  pub gateway_ip : String
  pub created_at : ℕ
  pub updated_at : ℕ

pub record IngressRule : Type 0 where
  pub id : String
  pub vm_id : String
  pub protocol : String
  pub host_port : ℕ
  pub guest_port : ℕ
  pub description : String
  pub created_at : ℕ

pub record EgressPolicy : Type 0 where
  pub id : String
  pub name : String
  pub mode : String
  pub tcp_ports : String
  pub udp_ports : String
  pub cidrs : String
  pub created_at : ℕ
  pub updated_at : ℕ
