-- ===== src/Model/Assets.antt =====
-- internal/model/model.go: base images, kernels and the jobs that test a kernel.
use bap_web.Prelude.{ℕ, ℤ, String, Option}

pub record BaseImage : Type 0 where
  pub id : String
  pub name : String
  pub status : String
  pub filesystem : String
  pub path : String
  pub virtual_size_mib : ℤ
  pub disk_size_bytes : ℕ
  pub checksum : String
  pub packages : String
  pub hooks : String
  pub provenance : String
  pub created_by : String
  pub created_at : ℕ
  pub updated_at : ℕ

pub record Kernel : Type 0 where
  pub id : String
  pub name : String
  pub version : String
  pub architecture : String
  pub status : String
  pub source_type : String
  pub path : String
  pub config_path : String
  pub checksum : String
  pub boot_args : String
  pub provenance : String
  pub created_by : String
  pub created_at : ℕ
  pub updated_at : ℕ
  pub last_tested_at : Option ℕ

pub record KernelTestJob : Type 0 where
  pub id : String
  pub kernel_id : String
  pub status : String
  pub log_path : String
  pub base_image_id : String
  pub uname_result : String
  pub error : String
  pub created_by : String
  pub created_at : ℕ
  pub started_at : Option ℕ
  pub completed_at : Option ℕ
