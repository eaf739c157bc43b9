-- ===== src/Config.antt =====
-- internal/config/config.go (with defaults_linux.go): the configuration, its defaults and its checks. A
-- text is a list of runes here. koanf and the file system are a parameter: what they make of the file.
pub mod Users
pub mod Load
pub mod Resources
use srm.Prelude.{
  ℕ, Bool, Option, none, some, List, [], ◌∷◌, map, find_first, if◌then◌else◌, Text, codes, text_eq,
}
use srm.Prelude.Int.{ℤ, pos}
use srm.Core.{RunnerProfile, DependencyManifest}

pub record ResourceLimits : Type 0 where
  pub memory_high : Text
  pub memory_max : Text
  pub memory_swap_max : Text
  pub cpu_weight : Text
  pub tasks_max : Text

pub record OrgConfig : Type 0 where
  pub name : Text
  pub app_id : ℤ
  pub installation_id : ℤ
  pub private_key_path : Text
  pub default_group_id : ℤ
  pub default_labels : List Text
  pub install_root : Text
  pub runner_user : Text
  pub profiles : List RunnerProfile
  pub resources : ResourceLimits

-- Isolation, HardeningConfig and DockerConfig are fields of the one record.
pub record Config : Type 0 where
  pub schema_version : ℤ
  pub orgs : List OrgConfig
  pub dry_run : Bool
  pub concurrency : ℤ
  pub runner_version : Text
  pub runner_user : Text
  pub runner_version_pin : Text
  pub log_file : Text
  pub cache_retention_days : ℤ
  pub job_log_retention_days : ℤ
  pub resources : ResourceLimits
  pub resource_mode : Text
  pub slice_memory_max : Text
  pub per_org_users : Bool
  pub protect_proc : Bool
  pub rootless_din_d : Bool
  pub buildkit_image : Text
  pub host : DependencyManifest

-- (*Config).Org
unfoldable pub org : Config → Text → Option OrgConfig
unfolding find_first
org c name = find_first (λ oc. text_eq oc.name name) c.orgs

unfoldable pub org_names : Config → List Text
org_names c = map (λ oc. oc.name) c.orgs
