-- ===== src/Core.antt =====
-- internal/core/types.go: the domain types that the service works on.
use srm.Prelude.{ℕ, Bool, ◌&&◌, not, List, Text, codes, text_eq}

abbrev pub status_online : Text
status_online = codes "online"

pub record Label : Type 0 where
  pub name : Text
  pub read_only : Bool

pub record Runner : Type 0 where
  pub id : ℕ
  pub name : Text
  pub os : Text
  pub status : Text
  pub busy : Bool
  pub ephemeral : Bool
  pub group_id : ℕ
  pub version : Text
  pub labels : List Label

unfoldable pub online : Runner → Bool
online r = text_eq r.status status_online

unfoldable pub idle : Runner → Bool
unfolding online
idle r = online r && not r.busy

-- GitHub's group id 0 stands for none.
pub record DependencyManifest : Type 0 where
  pub apt_packages : List Text
  pub setup_scripts : List Text
  pub tool_cache_seeds : List Text
  pub persistent_cache_paths : List Text

pub record RunnerProfile : Type 0 where
  pub name : Text
  pub labels : List Text
  pub group_id : ℕ
  pub ephemeral : Bool
  pub manifest : DependencyManifest
  pub default_container_image : Text
  pub require_job_container : Bool
