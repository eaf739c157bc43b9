-- ===== src/Service/Reconcile/Units.antt =====
-- The loops of Reconcile over the units and the slot lanes of the host.
use srm.Prelude.{
  Bool, true, false, ◌&&◌, ◌||◌, not, Option, none, some, List, [], ◌∷◌, ◌++◌, if◌then◌else◌, Text,
  text_eq,
}
use srm.Core.{online}
use srm.Service.UnitNames.{orgs_by_len, parse_unit_name, parse_ephemeral_unit_name}
use srm.Service.Drift.{Inspection, EphemeralInspection, classify_persistent, classify_ephemeral}
use srm.Service.Reconcile.Model.{RunnerWithOrg, no_fix, RunnerState, World, Pass, tick}
use srm.Service.Reconcile.Github.{filtered_out, gh_row, listed_ok}

abbrev pub row_online : Option RunnerWithOrg → Bool
row_online none = false
row_online (some row) = online row.runner

abbrev pub row_busy : Option RunnerWithOrg → Bool
row_busy none = false
row_busy (some row) = row.runner.busy

abbrev pub is_some : Option RunnerWithOrg → Bool
is_some none = false
is_some (some row) = true

unfoldable pub unit_state :
    World → Text → Option RunnerWithOrg → Inspection → Text → Text → RunnerState
unit_state w org_filter row insp org name =
    let (class, detail) =
      classify_persistent insp (is_some row) (listed_ok w org) (row_online row) in
    record {
      org = org;
      name = name;
      class = class;
      detail = detail;
      local = true;
      active = insp.active;
      user = insp.user;
      on_github = is_some row;
      online = row_online row;
      busy = row_busy row;
      mem_peak = insp.mem_peak_bytes;
      mem_max = insp.mem_max_bytes;
      mem_cur = insp.mem_cur_bytes;
      oom_kills = insp.oom_kills;
      fix = no_fix;
      fix_err = none;
    }

unfoldable pub lane_state : EphemeralInspection → Text → Text → RunnerState
lane_state insp org slot =
    let (class, detail) = classify_ephemeral insp in
    record {
      org = org;
      name = slot;
      class = class;
      detail = detail;
      local = true;
      active = insp.active;
      user = [];
      on_github = false;
      online = false;
      busy = false;
      mem_peak = insp.mem_peak_bytes;
      mem_max = insp.mem_max_bytes;
      mem_cur = insp.mem_cur_bytes;
      oom_kills = insp.oom_kills;
      fix = no_fix;
      fix_err = none;
    }

-- The loop over the systemd units of persistent runners
unfoldable pub unit_step :
    World → Text → List RunnerWithOrg → Option (Text × Text) → Pass → List RunnerState × Pass
unit_step w org_filter rows none p = ([], p)
unit_step w org_filter rows (some (org, name)) p =
    if filtered_out org_filter org then ([], p) else (
      unit_state w org_filter (gh_row org_filter rows org name) (w.inspect p.now org name) org name
          ∷ [],
      tick p,
    )

unfoldable pub inspect_units :
    World → Text → List RunnerWithOrg → List Text → Pass → List RunnerState × Pass
inspect_units w org_filter rows [] p = ([], p)
inspect_units w org_filter rows (svc ∷ units) p =
    let (st, p') = unit_step w org_filter rows (parse_unit_name svc (orgs_by_len w.org_names)) p in
    let (sts, p'') = inspect_units w org_filter rows units p' in (st ++ sts, p'')

-- seen[key{org, name}] after that loop
seen_unit : Text → Text → Text → Option (Text × Text) → Bool
seen_unit org_filter org name none = false
seen_unit org_filter org name (some (o, n)) =
    not (filtered_out org_filter o) && (text_eq o org && text_eq n name)

unfoldable pub seen : World → Text → List Text → Text → Text → Bool
unfolding seen_unit
seen w org_filter [] org name = false
seen w org_filter (svc ∷ units) org name =
    seen_unit org_filter org name (parse_unit_name svc (orgs_by_len w.org_names))
    || seen w org_filter units org name

-- The loop over the slot lanes
unfoldable pub lane_step : World → Text → Option (Text × Text) → Pass → List RunnerState × Pass
lane_step w org_filter none p = ([], p)
lane_step w org_filter (some (org, slot)) p =
    if filtered_out org_filter org
    then ([], p)
    else (lane_state (w.inspect_ephemeral p.now org slot) org slot ∷ [], tick p)

unfoldable pub inspect_lanes : World → Text → List Text → Pass → List RunnerState × Pass
inspect_lanes w org_filter [] p = ([], p)
inspect_lanes w org_filter (svc ∷ units) p =
    let (st, p') =
      lane_step w org_filter (parse_ephemeral_unit_name svc (orgs_by_len w.org_names)) p in
    let (sts, p'') = inspect_lanes w org_filter units p' in (st ++ sts, p'')
