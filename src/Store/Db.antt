-- ===== src/Store/Db.antt =====
-- The tables that `migrate` of internal/store/store.go creates and the model covers. A token's row
-- holds its hash beside the fields that a query returns.
use bap_web.Prelude.{ℕ, String, List, []}
use bap_web.Model.{
  Vm, Network, IngressRule, EgressPolicy, User, Session, ApiToken, SshKey, BaseImage, Kernel,
  KernelTestJob, VmExecJob,
}

pub record TokenRow : Type 0 where
  pub token : ApiToken
  pub token_hash : String

-- A row of `audit_events`; its id is its place in the table.
pub record AuditEvent : Type 0 where
  pub actor : String
  pub source : String
  pub action : String
  pub target : String
  pub outcome : String
  pub request_id : String
  pub message : String
  pub created_at : ℕ

pub record Db : Type 0 where
  pub users : List User
  pub sessions : List Session
  pub api_tokens : List TokenRow
  pub vms : List Vm
  pub ssh_keys : List SshKey
  pub networks : List Network
  pub ingress_rules : List IngressRule
  pub egress_policies : List EgressPolicy
  pub base_images : List BaseImage
  pub kernels : List Kernel
  pub kernel_test_jobs : List KernelTestJob
  pub vm_exec_jobs : List VmExecJob
  pub audit_events : List AuditEvent

abbrev pub empty : Db
empty = record {
  users = [];
  sessions = [];
  api_tokens = [];
  vms = [];
  ssh_keys = [];
  networks = [];
  ingress_rules = [];
  egress_policies = [];
  base_images = [];
  kernels = [];
  kernel_test_jobs = [];
  vm_exec_jobs = [];
  audit_events = [];
}
