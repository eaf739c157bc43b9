-- ===== src/Service/Upgrade/Pass.antt =====
-- UpgradeLocalRunnersStream of internal/service/upgrade.go: the whole pass. The results sent on the
-- progress channel are those returned, in the same order.
pub mod Results
pub mod Scope
pub mod Swaps
pub mod Serial
use srm.Prelude.{
  Bool, not, Option, none, some, List, [], ◌∷◌, ◌++◌, map, if◌then◌else◌, any_of, Text, text_eq,
  ◌&&◌,
}
use srm.Service.Manifest.{StateManifest}
use srm.Service.Manifest.Disk.{StateError, Result, ok, err}
use srm.Service.Reconcile.Model.{Error, World}
use srm.Service.Reconcile.Github.{all_rows, list_errors}
use srm.Service.Upgrade.Model.{Opts, UpgradeResult, Event, saved, Host, State}
use srm.Service.Upgrade.{upgrade_persistent, upgrade_ephemeral}

-- The error map: an error under "_arg", "_state", an org or "_ephemeral"
pub data PassError : Type 0 where
  not_configured no_lanes : PassError
  bad_state : StateError → PassError
  not_listed : Text → Error → PassError

abbrev pub Report : Type 0
Report = List UpgradeResult × List PassError

-- `target`: the version asked for, or else the pinned one
abbrev pub target_version : Opts → Text → Text
target_version opts pin = if text_eq opts.to_version [] then pin else opts.to_version

not_listed_errors : List (Text × Error) → List PassError
not_listed_errors errs = map (λ (org, e). not_listed org e) errs

abbrev pub lane_pass : World → Opts → Option (List Text) → List UpgradeResult
lane_pass w opts none = []
lane_pass w opts (some units) = upgrade_ephemeral opts w.org_names units

-- The lanes are not enumerated for a selection.
lane_errors : World → Opts → Option (List Text) → List PassError
lane_errors w opts (some units) = []
lane_errors w opts none = elim opts.only [ [] ↦ no_lanes ∷ [] | x ∷ only ↦ [] ]

-- The state of a pass that starts at `time` with the manifest that was loaded
abbrev pub start : StateManifest → State → State
start st s = record s { manifest = st; dl_cache = [] }

pub last_save : Opts → State → State
last_save opts s = if not opts.dry_run then record s { log = saved s.manifest ∷ s.log } else s

unfoldable pub run_pass : World → Host → Opts → Text → StateManifest → State → Report × State
unfolding last_save not_listed_errors lane_errors
run_pass w h opts pin st s =
    let rows = all_rows w w.org_names in
    let (out, s') = upgrade_persistent h opts (target_version opts pin) rows (start st s) in
    (
      (
        out ++ lane_pass w opts w.list_ephemeral_units,
        not_listed_errors (list_errors w w.org_names) ++ lane_errors w opts w.list_ephemeral_units,
      ),
      last_save opts s',
    )

loaded_pass : World → Host → Opts → Text → Result StateManifest → State → Report × State
unfolding run_pass
loaded_pass w h opts pin (err e) s = (([], bad_state e ∷ []), s)
loaded_pass w h opts pin (ok st) s = run_pass w h opts pin st s

-- `loaded` is the answer of LoadState, `pin` is RunnerVersionPin.
unfoldable pub upgrade_local_runners :
    World → Host → Opts → Text → Result StateManifest → State → Report × State
unfolding loaded_pass
upgrade_local_runners w h opts pin loaded s =
    if not (text_eq opts.org_filter [])
      && not (any_of (λ org. text_eq org opts.org_filter) w.org_names)
    then (([], not_configured ∷ []), s)
    else loaded_pass w h opts pin loaded s
