-- ===== src/Model/Jobs.antt =====
-- internal/model/model.go: the job that runs a command in a virtual machine. Its output
-- is bytes, which a limit may cut inside a character.
use bap_web.Prelude.{ℕ, String, Bool, Option, List, ℤ}

pub record VmExecJob : Type 0 where
  pub id : String
  pub vm_id : String
  pub status : String
  pub command : String
  pub cwd : String
  pub env_json : String
  pub pty : Bool
  pub timeout_seconds : ℤ
  pub stdout : List ℕ
  pub stderr : List ℕ
  pub exit_code : ℤ
  pub timed_out : Bool
  pub truncated : Bool
  pub log_path : String
  pub error : String
  pub created_by : String
  pub created_at : ℕ
  pub started_at : Option ℕ
  pub completed_at : Option ℕ
