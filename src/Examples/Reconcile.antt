-- ===== src/Examples/Reconcile.antt =====
-- A host with an orphaned unit, a runner with a stale drop-in, and a slot that left a ghost behind.
use srm.Prelude.{
  ℕ, ◌≡◌, refl, true, false, none, some, [], ◌∷◌, All, Text, codes, text_eq, if◌then◌else◌, any_of,
}
use srm.Prelude.Int.{pos, negsuc}
use srm.Prelude.Strings.{
  strip_prefix, has_prefix, trim_prefix, trim_suffix, cut_at, has_suffix, text_lt,
}
use srm.Prelude.Sort.{sort_slice, insert_by}
use srm.Core.{Runner, online}
use srm.Runner.Names.{is_ephemeral_runner_name, ephemeral_slot_from_name}
use srm.Service.UnitNames.{parse_unit_name, parse_ephemeral_unit_name, orgs_by_len, split_org}
use srm.Service.Drift.{
  stale_drop_in, Inspection, EphemeralInspection, classify_persistent, classify_ephemeral,
}
use srm.Service.Reconcile.Model.{
  listed, failed, deleted, World, delete_runner, remove_runner, refresh_unit, error,
}
use srm.Service.Reconcile.Github.{all_rows, list_errors, gh_row, listed_ok}
use srm.Service.Reconcile.Units.{
  inspect_units, inspect_lanes, unit_step, lane_step, unit_state, lane_state, seen,
}
use srm.Service.Reconcile.Ghosts.{github_only, github_step, maybe_reap_ghost, reap_slot, reap_ghost}
use srm.Service.Reconcile.Repair.{
  repair_runner, repair_all, by_class, repair_orphan, repair_refresh,
}
use srm.Service.Reconcile.{reconcile}
use srm.Service.Reconcile.Safety.{IsJustified}
use srm.Service.Reconcile.Safety.Justified.{reconcile-IsJustified}

abbrev pub inspection : Inspection
inspection = record {
  unit_exists = true;
  active = true;
  user = codes "srm";
  has_tree = true;
  has_flat_tree = false;
  drop_in_ok = false;
  drop_in_ver = 1;
  drop_in_newer = false;
  mem_peak_bytes = negsuc 0;
  mem_max_bytes = negsuc 0;
  mem_cur_bytes = negsuc 0;
  oom_kills = pos 0;
}

abbrev pub lane : EphemeralInspection
lane = record {
  unit_exists = true;
  active = true;
  restarts = 12;
  last_result = codes "success";
  unit_ok = true;
  unit_ver = 2;
  unit_newer = false;
  mem_peak_bytes = negsuc 0;
  mem_max_bytes = negsuc 0;
  mem_cur_bytes = negsuc 0;
  oom_kills = pos 0;
}

abbrev pub runner : ℕ → Text → Text → Runner
runner id name status = record {
  id = id;
  name = name;
  os = codes "linux";
  status = status;
  busy = false;
  ephemeral = false;
  group_id = 1;
  version = [];
  labels = [];
}

abbrev pub acme : Text
acme = codes "acme"

abbrev pub world : World
world = record {
  org_names = acme ∷ codes "beta" ∷ [];
  per_org_users = true;
  list_runners = λ org.
      if text_eq org acme
      then listed (
          runner 7 (codes "ci") (codes "online")
          ∷ runner 9 (codes "srm-eph-acme-1-f00") (codes "offline")
          ∷ [])
      else failed (error 500);
  runner_is_local = λ org name. true;
  list_units = some (
      codes "actions.runner.acme.ci.service"
      ∷ codes "actions.runner.acme.old.service"
      ∷ codes "actions.runner.beta.ci.service"
      ∷ []);
  list_ephemeral_units = some (codes "actions.ephemeral.acme.1.service" ∷ []);
  inspect = λ time org name. inspection;
  inspect_ephemeral = λ time org slot. lane;
  pending_jit = λ time org slot. 12;
  client_error = λ org. none;
  delete_reply = λ time org id. deleted;
  remove_reply = λ time org name. none;
  refresh_reply = λ time org name. none;
  host_disk = λ paths. [];
  dir_size = λ path. 0;
  slice_current = negsuc 0;
  slice_max = negsuc 0;
}

-- The stale runner is refreshed, the orphan removed and the ghost deleted; the unit of the org whose list
-- failed is left alone.
log_of_world :
    (reconcile world true true [] false (record { now = 0; log = [] })).2.log
    ≡ remove_runner acme (codes "old") ∷ refresh_unit acme (codes "ci") ∷ delete_runner acme 9 ∷ []
unfolding reconcile all_rows list_errors gh_row listed_ok inspect_units inspect_lanes unit_step
    lane_step unit_state lane_state seen github_only github_step maybe_reap_ghost reap_slot
    reap_ghost repair_runner repair_all by_class repair_orphan repair_refresh parse_unit_name
    parse_ephemeral_unit_name orgs_by_len sort_slice text_eq text_lt strip_prefix trim_prefix
    trim_suffix cut_at classify_persistent classify_ephemeral is_ephemeral_runner_name
    ephemeral_slot_from_name any_of has_prefix split_org insert_by has_suffix online
log_of_world = refl

reconcile-IsJustified_example :
    All
      (IsJustified world true true [] false (all_rows world world.org_names))
      (reconcile world true true [] false (record { now = 0; log = [] })).2.log
reconcile-IsJustified_example = reconcile-IsJustified world true [] false true 0

stale : (classify_persistent inspection true true true).0 ≡ stale_drop_in
unfolding classify_persistent
stale = refl
