-- ===== src/Service/Upgrade.antt =====
-- The agent upgrade pass of internal/service/upgrade.go.
pub mod Gates
pub mod Model
pub mod Laws
pub mod Keys
pub mod Pass
use srm.Prelude.{
  ℕ, suc, Bool, true, false, ◌&&◌, ◌||◌, not, Option, none, some, List, [], ◌∷◌, ◌++◌, ◌==◌,
  if◌then◌else◌, any_of, Text, text_eq,
}
use srm.Core.{Runner}
use srm.Runner.Names.{is_ephemeral_runner_name}
use srm.Runner.Units.Marker.{current_drop_in_version}
use srm.Runner.Versions.{download_url, version_from_url}
use srm.Service.Manifest.{Kind, persistent, ephemeral, RunnerRecord, StateManifest, get, put}
use srm.Service.UnitNames.{orgs_by_len, parse_ephemeral_unit_name}
use srm.Service.Reconcile.Model.{Error, RunnerWithOrg}
use Gates.{id_mismatch_skip, version_gate_skip}
use Model.{
  Skip, no_skip, busy, no_previous, dry_run_skip, became_busy, ephemeral_unsupported, Failure,
  no_failure, not_cached, resolve_failed, swap_failed, Opts, UpgradeResult, Download, AgentReply,
  swapped_ok, swap_error, Event, swapped, saved, Host, State, runner_ref,
}

-- st.Get, or a fresh record for the key
unfoldable pub record_or_new : Text → Text → Option RunnerRecord → RunnerRecord
record_or_new org name (some rec) = rec
record_or_new org name none = record {
  kind = persistent;
  org = org;
  name = name;
  github_runner_id = 0;
  agent_version = [];
  previous_version = [];
  template_version = 0;
  configured_at = [];
  last_upgrade_at = [];
}

-- The id that this host recorded, or else the one in the agent's own file, if it can be read
id_or_agent : ℕ → Option ℕ → ℕ
id_or_agent id (some aid) = if id == 0 then aid else id
id_or_agent id none = id

unfoldable pub recorded_id : Host → RunnerRecord → Text → Text → ℕ
unfolding id_or_agent
recorded_id h rec org name = id_or_agent rec.github_runner_id (h.agent_id org name)

abbrev result : Text → Text → Text → UpgradeResult
result org name from = record {
  kind = persistent;
  org = org;
  name = name;
  from = from;
  to = [];
  upgraded = false;
  rolled_back = false;
  skipped = no_skip;
  failure = no_failure;
}

-- A version that VersionFromURL does not panic on is always there.
abbrev or_empty : Option Text → Text
or_empty none = []
or_empty (some v) = v

-- dlCache, and the call on a miss: only a success is remembered
cached_download : Text → List (Text × Download) → Option Download
cached_download org [] = none
cached_download org ((o, dl) ∷ cache) =
    let rest = cached_download org cache in if text_eq o org then some dl else rest

-- resolveDownload (deploy.go): what GitHub publishes, if that is the target or there is none
published : Text → Option Download → Option Download
published target none = none
published target (some dl) =
    if text_eq target []
    then some dl
    else if text_eq target (or_empty (version_from_url dl.url))
    then some dl
    else none

unfoldable pub resolve_download : Host → ℕ → Text → Text → Option Download
unfolding published
resolve_download h time org target = published target (h.agent_download time org)

resolved : Text → State → Option Download → Option Download × State
resolved org s none = (none, record s { time = suc s.time })
resolved org s (some dl) =
    (some dl, record s { time = suc s.time; dl_cache = (org, dl) ∷ s.dl_cache })

resolve_miss : Host → Text → Text → State → Option Download → Option Download × State
unfolding resolved
resolve_miss h target org s (some dl) = (some dl, s)
resolve_miss h target org s none = resolved org s (resolve_download h s.time org target)

resolve : Host → Text → Text → State → Option Download × State
unfolding resolve_miss cached_download
resolve h target org s = resolve_miss h target org s (cached_download org s.dl_cache)

-- resolveTarget: the result to return at once (`none`), or what to install
pub data Target : Type 0 where
  stop : UpgradeResult → Target
  install : Download → UpgradeResult → Target

rollback_target : Host → RunnerRecord → UpgradeResult → Target
rollback_target h rec res =
    if text_eq rec.previous_version []
    then stop (record res { skipped = no_previous })
    else (let dl : Download = record { url = download_url rec.previous_version; sha256 = [] } in
        let res' = record res { to = rec.previous_version } in
        if not (h.cached_agent_tarball dl)
        then stop (record res' { failure = not_cached })
        else install dl res')

forward_target : UpgradeResult → Option Download → Target
forward_target res none = stop (record res { failure = resolve_failed })
forward_target res (some dl) = install dl (record res { to = or_empty (version_from_url dl.url) })

unfoldable pub resolve_target :
    Host → Opts → Text → Text → UpgradeResult → RunnerRecord → State → Target × State
unfolding rollback_target forward_target resolve
resolve_target h opts target org res rec s =
    if opts.rollback
    then (rollback_target h rec res, s)
    else (let (dl, s') = resolve h target org s in (forward_target res dl, s'))

-- What is recorded of a runner that was upgraded
abbrev pub upgraded_record : Host → RunnerRecord → UpgradeResult → ℕ → RunnerRecord
upgraded_record h rec res id = record rec {
  agent_version = res.to;
  previous_version = res.from;
  template_version = current_drop_in_version;
  last_upgrade_at = h.now_stamp;
  github_runner_id =
      if rec.github_runner_id == 0 && not (id == 0) then id else rec.github_runner_id;
}

unfoldable pub after_swap :
    Host → RunnerRecord → UpgradeResult → ℕ → State → AgentReply → UpgradeResult × State
after_swap h rec res id s (swap_error runner_down) =
    (record res { failure = swap_failed; rolled_back = not runner_down }, s)
after_swap h rec res id s swapped_ok = (
  record res { upgraded = true },
  record s { manifest = put s.manifest (upgraded_record h rec res id) },
)

unfoldable pub swap :
    Host → RunnerRecord → UpgradeResult → ℕ → Download → State → UpgradeResult × State
swap h rec res id dl s =
    after_swap h rec res id
      (record s { time = suc s.time; log = swapped res.org res.name dl ∷ s.log })
      (h.upgrade_runner_agent s.time res.org res.name dl)

abbrev live_busy : Option Bool → Bool
live_busy none = false
live_busy (some b) = b

-- What is done once the version gate has answered: the dry run, the second look at the runner, the swap
unfoldable pub gated :
    Host
    → Opts
    → RunnerWithOrg
    → RunnerRecord
    → ℕ
    → State
    → Download
    → UpgradeResult
    → Skip
    → UpgradeResult × State
gated h opts row rec id s dl res no_skip =
    if opts.dry_run
    then (record res { skipped = dry_run_skip res.from res.to }, s)
    else if live_busy (h.get_runner_busy s.time row.org row.runner.id)
    then (record res { skipped = became_busy }, record s { time = suc s.time })
    else swap h rec res id dl (record s { time = suc s.time })
gated h opts row rec id s dl res skip = (record res { skipped = skip }, s)

unfoldable pub try_install :
    Host → Opts → RunnerWithOrg → RunnerRecord → ℕ → State → Target → UpgradeResult × State
try_install h opts row rec id s (stop res) = (res, s)
try_install h opts row rec id s (install dl res) =
    gated h opts row rec id s dl res (version_gate_skip res.from res.to opts.force opts.rollback)

-- What is done once the ids were compared
unfoldable pub identified :
    Host
    → Opts
    → Text
    → RunnerWithOrg
    → RunnerRecord
    → ℕ
    → UpgradeResult
    → State
    → Skip
    → UpgradeResult × State
identified h opts target row rec id res s no_skip =
    let (t, s') = resolve_target h opts target row.org res rec s in
    try_install h opts row rec id s' t
identified h opts target row rec id res s skip = (record res { skipped = skip }, s)

unfoldable pub upgrade_one_persistent :
    Host → Opts → Text → RunnerWithOrg → State → UpgradeResult × State
upgrade_one_persistent h opts target row s =
    let org = row.org in
    let name = row.runner.name in
    let rec = record_or_new org name (get s.manifest persistent org name) in
    let res = result org name rec.agent_version in
    let id = recorded_id h rec org name in
    if row.runner.busy
    then (record res { skipped = busy }, s)
    else identified h opts target row rec id res s (id_mismatch_skip id row.runner.id)

-- opts.Only[ref], where an empty selection takes every runner
is_selected : List Text → Text → Bool
is_selected [] ref = true
is_selected (x ∷ only) ref = any_of (λ y. text_eq y ref) (x ∷ only)

-- The runners of this pass: local, persistent, in the org filter and in the selection
unfoldable pub in_scope : Opts → RunnerWithOrg → Bool
unfolding is_selected
in_scope opts row =
    if not row.local || is_ephemeral_runner_name row.runner.name
    then false
    else if not (text_eq opts.org_filter []) && not (text_eq row.org opts.org_filter)
    then false
    else is_selected opts.only (runner_ref row.org row.runner.name)

-- The save after each runner, whose error is ignored
pub save_after : Opts → State → State
save_after opts s = if not opts.dry_run then record s { log = saved s.manifest ∷ s.log } else s

unfoldable pub upgrade_persistent :
    Host → Opts → Text → List RunnerWithOrg → State → List UpgradeResult × State
unfolding save_after
upgrade_persistent h opts target [] s = ([], s)
upgrade_persistent h opts target (row ∷ rows) s =
    let (res, s') = upgrade_one_persistent h opts target row s in
    let skipped_pass = upgrade_persistent h opts target rows s in
    let (out, s'') = upgrade_persistent h opts target rows (save_after opts s') in
    if in_scope opts row then (res ∷ out, s'') else skipped_pass

-- Every lane is reported as skipped, unless the pass has a selection.
lane_result : Opts → Option (Text × Text) → List UpgradeResult
lane_result opts none = []
lane_result opts (some (org, slot)) =
    if not (text_eq opts.org_filter []) && not (text_eq org opts.org_filter)
    then []
    else record (result org slot []) { kind = ephemeral; skipped = ephemeral_unsupported } ∷ []

lane_results : Opts → List Text → List Text → List UpgradeResult
unfolding lane_result
lane_results opts orgs [] = []
lane_results opts orgs (svc ∷ units) =
    lane_result opts (parse_ephemeral_unit_name svc (orgs_by_len orgs))
    ++ lane_results opts orgs units

unfoldable pub upgrade_ephemeral : Opts → List Text → List Text → List UpgradeResult
unfolding lane_results
upgrade_ephemeral opts orgs units = elim opts.only [
  | [] ↦ lane_results opts orgs units
  | x ∷ only ↦ []
]
