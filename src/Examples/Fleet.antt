-- ===== src/Examples/Fleet.antt =====
-- A runner and a lane that are both called 1, and the slots that are given to new lanes.
use srm.Prelude.{
  ℕ, ◌≡◌, refl, Bool, true, false, none, some, List, [], ◌∷◌, if◌then◌else◌, not, map, length, All,
  any_of, Text, codes, text_eq,
}
use srm.Prelude.Int.{pos, negsuc}
use srm.Prelude.Decimal.{decimal}
use srm.Service.Drift.{healthy, ephemeral_slot, no_detail}
use srm.Service.Manifest.{matches}
use srm.Service.Manifest.Disk.{ok}
use srm.Service.Reconcile.Model.{RunnerState, no_fix, RunnerWithOrg}
use srm.Service.Reconcile.{ReconcileReport}
use srm.Service.Snapshot.{
  EphemeralSlot, FleetSnapshot, merge_host_tier, drift_count, verdict, count, merge_runner,
  merge_slot,
}
use srm.Service.Snapshot.Fast.{Fleet, fleet_fast, fuse_runner, fuse_slot, with_record, record_at}
use srm.Service.Snapshot.Merge.{
  IsUnaudited, HasSameClass, fuse_runner-IsUnaudited, merge_host_tier-HasSameClass,
}
use srm.Service.Slots.{allocate_ephemeral_slots}
use srm.Service.Slots.Lowest.{IsLowestFree, allocate_ephemeral_slots-IsLowestFree}
use srm.Examples.Reconcile.{world}
use srm.Examples.Manifest.{two}

abbrev acme : Text
acme = codes "acme"

abbrev state : Bool → RunnerState
state lane = record {
  org = acme;
  name = codes "1";
  class = if lane then ephemeral_slot else healthy;
  detail = no_detail;
  local = true;
  active = true;
  user = [];
  on_github = not lane;
  online = not lane;
  busy = false;
  mem_peak = negsuc 0;
  mem_max = negsuc 0;
  mem_cur = negsuc 0;
  oom_kills = negsuc 0;
  fix = no_fix;
  fix_err = none;
}

-- The healthy runner 1, then the healthy lane 1
abbrev report : ReconcileReport
report = record {
  runners = state false ∷ state true ∷ [];
  disks = [];
  caches = [];
  list_errs = [];
  applied = false;
  reaped_rows = [];
  slice_current = pos 0;
  slice_max = pos 0;
}

abbrev lane : EphemeralSlot
lane = record {
  org = acme;
  slot = codes "1";
  active = true;
  restarts = 3;
  unit_ok = true;
  last_result = codes "success";
  mem_peak = negsuc 0;
  mem_max = negsuc 0;
  mem_cur = negsuc 0;
  oom_kills = negsuc 0;
  group_id = 1;
  labels = [];
}

abbrev fleet : Fleet
fleet = record {
  to_group = λ org id. 1;
  group_names = λ org id. codes "Default";
  published = λ org. codes "2.336.0";
  list_slots = λ org_filter. some (lane ∷ []);
}

abbrev row : RunnerWithOrg
row = record {
  org = acme;
  runner = record {
    id = 7;
    name = codes "1";
    os = codes "linux";
    status = codes "online";
    busy = false;
    ephemeral = false;
    group_id = 0;
    version = [];
    labels = [];
  };
  local = true;
}

abbrev snapshot : FleetSnapshot
snapshot = record (fleet_fast world fleet (ok two) []) {
  runners = fuse_runner fleet two.runners row ∷ [];
}

snapshot-IsUnaudited : All IsUnaudited snapshot.runners
snapshot-IsUnaudited = (fuse_runner-IsUnaudited fleet two.runners row, tt)

merge_host_tier-HasSameClass_example :
    All
      (λ r. All (HasSameClass r) (merge_host_tier snapshot report 1).slots)
      (merge_host_tier snapshot report 1).runners
merge_host_tier-HasSameClass_example =
    merge_host_tier-HasSameClass snapshot report 1 snapshot-IsUnaudited

-- Both are healthy, but the runner has the class of the lane, and so counts as drifted.
counts_as_drifted : drift_count (merge_host_tier snapshot report 1) ≡ 1
unfolding drift_count count merge_host_tier verdict merge_runner merge_slot fuse_runner with_record
    record_at matches fleet_fast fuse_slot text_eq
counts_as_drifted = refl

allocate_ephemeral_slots-IsLowestFree_example :
    (ids : List ℕ) × (allocate_ephemeral_slots (1 ∷ 3 ∷ []) 2 ≡ some (map decimal ids))
    × (length ids ≡ 2)
    × IsLowestFree (1 ∷ 3 ∷ []) 1 ids
allocate_ephemeral_slots-IsLowestFree_example = allocate_ephemeral_slots-IsLowestFree (1 ∷ 3 ∷ []) 2

allocated : allocate_ephemeral_slots (1 ∷ 3 ∷ []) 2 ≡ some (codes "2" ∷ codes "4" ∷ [])
unfolding allocate_ephemeral_slots decimal any_of
allocated = refl
