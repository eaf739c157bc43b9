-- ===== src/Service/Uninstall/Model.antt =====
-- What Uninstall is asked (UninstallOpts), what it reports (UninstallReport), and what the host and GitHub
-- answer: internal/service/uninstall.go. The answers on runners and lanes are those of Lifecycle.
use srm.Prelude.{Bool, Option, List, Text}
use srm.Service.Reconcile.Model.{World}
use srm.Service.Lifecycle.Model
use srm.Service.Lifecycle.Model.{Failure, Trail}

pub record UninstallOpts : Type 0 where
  pub org : Text
  pub force : Bool
  pub keep_config : Bool
  pub keep_binary : Bool
  pub keep_github : Bool
  pub purge : Bool
  pub backup_dir : Text

pub data TeardownError : Type 0 where
  lane_left runner_left : Text → Text → Failure → TeardownError
  base_left dir_left binary_left : TeardownError

pub data Skipped : Type 0 where
  foreign_unit foreign_lane : Text → Skipped
  shared_tool_cache : Skipped

pub record UninstallReport : Type 0 where
  pub persistent : List (Text × Text)
  pub ephemeral : List (Text × Text)
  pub users : List Text
  pub paths : List Text
  pub skipped : List Skipped
  pub errors : List TeardownError
  pub backup_path : Option Text
  pub config_dir : Option Text
  pub binary : Option Text

-- What is done beside the calls on runners and lanes
pub data Purge : Type 0 where
  purged_base : List Text → List Text → Bool → Purge
  backed_up : Text → Purge
  removed_dir : Purge
  removed_binary : Text → Purge

pub record Site : Type 0 where
  pub lifecycle : Model.Site
  pub list_units : Option (List Text)
  pub list_ephemeral_units : Option (List Text)
  -- GitHub's lists for ListAllRunners
  pub world : World
  pub config_path : Text
  pub config_dir : Text
  pub executable : Option Text
  pub purge_base : List Text → List Text → Bool → Bool
  pub backup : Text → Option Text
  pub remove_dir : Bool
  pub remove_binary : Bool

pub data DrainError : Type 0 where
  not_listed busy in_flight : Text → Text → DrainError

pub data Outcome : Type 0 where
  not_enumerated not_backed_up planned finished : UninstallReport → Outcome
  not_drained : DrainError → UninstallReport → Outcome

-- The trail of the calls, and the rest, the last first
pub record Host : Type 0 where
  pub trail : Trail
  pub purges : List Purge
