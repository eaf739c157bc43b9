-- ===== src/Service/Upgrade/Model.antt =====
-- The arguments, results and surroundings of an upgrade pass.
use srm.Prelude.{ℕ, Bool, Option, List, ◌∷◌, ◌++◌, Text}
use srm.Service.Manifest.{Kind, StateManifest}

-- Why a runner was not touched: the texts put into UpgradeResult.Skipped ("" is no_skip)
pub data Skip : Type 0 where
  no_skip busy no_previous became_busy ephemeral_unsupported : Skip
  id_mismatch : ℕ → ℕ → Skip
  at_target : Text → Skip
  older_target : Text → Text → Skip
  dry_run_skip : Text → Text → Skip

-- UpgradeResult.Err (nil is no_failure)
pub data Failure : Type 0 where
  no_failure not_cached resolve_failed swap_failed : Failure

pub record Opts : Type 0 where
  pub org_filter : Text
  pub only : List Text
  pub to_version : Text
  pub dry_run : Bool
  pub force : Bool
  pub rollback : Bool

pub record UpgradeResult : Type 0 where
  pub kind : Kind
  pub org : Text
  pub name : Text
  pub from : Text
  pub to : Text
  pub upgraded : Bool
  pub rolled_back : Bool
  pub skipped : Skip
  pub failure : Failure

pub record Download : Type 0 where
  pub url : Text
  pub sha256 : Text

-- The answer of UpgradeRunnerAgent; an error tells whether it wraps ErrRunnerDown.
pub data AgentReply : Type 0 where
  swapped_ok : AgentReply
  swap_error : Bool → AgentReply

pub data Event : Type 0 where
  swapped : Text → Text → Download → Event
  saved : StateManifest → Event

-- GitHub, the orchestrator and the clock; what is asked twice depends on the time.
pub record Host : Type 0 where
  pub agent_id : Text → Text → Option ℕ
  pub agent_download : ℕ → Text → Option Download
  pub cached_agent_tarball : Download → Bool
  pub get_runner_busy : ℕ → Text → ℕ → Option Bool
  pub upgrade_runner_agent : ℕ → Text → Text → Download → AgentReply
  pub now_stamp : Text

-- The manifest in memory, dlCache, the time, and what was done, the last first.
pub record State : Type 0 where
  pub manifest : StateManifest
  pub dl_cache : List (Text × Download)
  pub time : ℕ
  pub log : List Event

-- org + "\x00" + name
unfoldable pub runner_ref : Text → Text → Text
runner_ref org name = org ++ 0 ∷ name
