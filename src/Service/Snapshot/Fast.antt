-- ===== src/Service/Snapshot/Fast.antt =====
-- FleetFast of internal/service/snapshot.go. The answers that it memoizes for each org, and the slots of
-- this host, are the record Fleet.
use srm.Prelude.{
  ℕ, Bool, false, not, Option, none, some, List, [], ◌∷◌, map, keep, if◌then◌else◌, ◌==◌, Text,
  text_eq,
}
use srm.Prelude.Int.{pos}
use srm.Prelude.Strings.{text_lt}
use srm.Prelude.Sort.{sort_slice}
use srm.Runner.Names.{is_ephemeral_runner_name}
use srm.Service.Drift.{unaudited, no_detail}
use srm.Service.Manifest.{Kind, persistent, ephemeral, RunnerRecord, StateManifest, matches}
use srm.Service.Manifest.Disk.{Result, ok, err}
use srm.Service.Reconcile.Model.{Error, Listing, listed, failed, RunnerWithOrg, World, unmeasured}
use srm.Service.Reconcile.Github.{all_rows, list_errors, org_rows}
use srm.Service.Snapshot.{EphemeralSlot, FusedRunner, FusedSlot, FleetSnapshot, is_behind}

-- RunnerGroups and AgentVersionStatus of an org ("": not resolved), and ListEphemeralSlots
pub record Fleet : Type 0 where
  pub to_group : Text → ℕ → ℕ
  pub group_names : Text → ℕ → Text
  pub published : Text → Text
  pub list_slots : Text → Option (List EphemeralSlot)

-- The rows, and PartialErrs
rows_of_one : World → Text → Listing → List RunnerWithOrg × List (Text × Error)
rows_of_one w org (listed rs) = (org_rows w org rs, [])
rows_of_one w org (failed e) = ([], (org, e) ∷ [])

unfoldable pub fast_rows : World → Text → List RunnerWithOrg × List (Text × Error)
unfolding rows_of_one
fast_rows w org_filter =
    if not (text_eq org_filter [])
    then rows_of_one w org_filter (w.list_runners org_filter)
    else (all_rows w w.org_names, list_errors w w.org_names)

-- recs[recordKey(kind, org, name)], which a later entry overwrites; no NUL is in a key's parts
unfoldable pub record_at : List RunnerRecord → Kind → Text → Text → Option RunnerRecord
record_at [] kind org name = none
record_at (rec ∷ runners) kind org name = elim (record_at runners kind org name) [
  | some later ↦ some later
  | none ↦ if matches rec kind org name then some rec else none
]

abbrev pub records : Result StateManifest → List RunnerRecord
records (ok st) = st.runners
records (err e) = []

abbrev bare : RunnerWithOrg → Text → FusedRunner
bare row group_name = record {
  row = row;
  group_name = group_name;
  agent_version = [];
  previous_version = [];
  template_version = 0;
  configured_at = [];
  last_upgrade_at = [];
  published = [];
  behind = false;
  drift_class = unaudited;
  drift_detail = no_detail;
  mem_cur = unmeasured;
  mem_peak = unmeasured;
  mem_max = unmeasured;
  oom_kills = unmeasured;
  host_known = false;
}

unfoldable pub with_record : FusedRunner → Option RunnerRecord → FusedRunner
with_record fr none = fr
with_record fr (some rec) = record fr {
  agent_version = rec.agent_version;
  previous_version = rec.previous_version;
  template_version = rec.template_version;
  configured_at = rec.configured_at;
  last_upgrade_at = rec.last_upgrade_at;
}

abbrev with_published : Text → FusedRunner → FusedRunner
with_published v fr = record fr { published = v; behind = is_behind fr.agent_version v }

unfoldable pub fuse_runner : Fleet → List RunnerRecord → RunnerWithOrg → FusedRunner
unfolding with_record
fuse_runner fl recs row =
    let gid = fl.to_group row.org row.runner.id in
    let row' : RunnerWithOrg = record row {
      runner = record row.runner {
        group_id = if row.runner.group_id == 0 then gid else row.runner.group_id;
      };
    } in
    with_published (fl.published row.org) (
      with_record (bare row' (fl.group_names row.org gid))
        (record_at recs persistent row.org row.runner.name))

-- The order of the runners: by org, then by name
abbrev pub fused_less : FusedRunner → FusedRunner → Bool
fused_less a b =
    if not (text_eq a.row.org b.row.org)
    then text_lt a.row.org b.row.org
    else text_lt a.row.runner.name b.row.runner.name

abbrev version_or_none : Option RunnerRecord → Text
version_or_none none = []
version_or_none (some rec) = rec.agent_version

unfoldable pub fuse_slot : Fleet → List RunnerRecord → EphemeralSlot → FusedSlot
fuse_slot fl recs s =
    let v = version_or_none (record_at recs ephemeral s.org s.slot) in
    record {
      lane = s;
      group_name = if not (s.group_id == 0) then fl.group_names s.org s.group_id else [];
      agent_version = v;
      published = fl.published s.org;
      behind = is_behind v (fl.published s.org);
      drift_class = unaudited;
      drift_detail = no_detail;
    }

abbrev pub fused_slots : Fleet → List RunnerRecord → Option (List EphemeralSlot) → List FusedSlot
fused_slots fl recs none = []
fused_slots fl recs (some slots) = map (fuse_slot fl recs) slots

-- The rows that are no churning registration of a lane
abbrev pub persistent_rows : World → Text → List RunnerWithOrg
persistent_rows w org_filter =
    keep (λ (row : RunnerWithOrg). not (is_ephemeral_runner_name row.runner.name))
      (fast_rows w org_filter).0

-- `loaded` is the answer of LoadState.
unfoldable pub fleet_fast : World → Fleet → Result StateManifest → Text → FleetSnapshot
unfolding sort_slice
fleet_fast w fl loaded org_filter =
    let recs = records loaded in
    record {
      runners = sort_slice fused_less (map (fuse_runner fl recs) (persistent_rows w org_filter));
      slots = fused_slots fl recs (fl.list_slots org_filter);
      host = record {
        slice_current = pos 0;
        slice_max = pos 0;
        disks = [];
        caches = [];
        loaded = false;
      };
      partial_errs = (fast_rows w org_filter).1;
      host_tier_available = false;
      host_tier_at = 0;
    }
