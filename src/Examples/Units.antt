-- ===== src/Examples/Units.antt =====
-- The units of a runner and of a lane of the org acme.
use srm.Prelude.{◌≡◌, ◌≢◌, true, false, some, [], if◌then◌else◌, arith, codes}
use srm.Config.Load.{no_limits}
use srm.Runner.Units.Render.{Options, render_drop_in, render_ephemeral_unit}
use srm.Runner.Units.Marker.{drop_in_conformance, ephemeral_conformance}
use srm.Runner.Units.Lane.{IsOneLine}
use srm.Service.Drift.{
  stale_drop_in, drop_in_newer, ephemeral_slot, ephemeral_stuck, classify_persistent,
  classify_ephemeral,
}
use srm.Service.Drift.Refresh.{with_drop_in, with_unit, refreshed-not_stale, written_lane-class}
use srm.Examples.Reconcile.{inspection, lane}

abbrev pub opts : Options
opts = record {
  user = codes "srm";
  tool_cache = codes "/opt/hostedtoolcache";
  cache_root = codes "/opt/srm-cache";
  resources = record no_limits { memory_swap_max = codes "0" };
  isolated = true;
  slice = codes "srm.slice";
  slice_memory_max = codes "75%";
  self_exe = [];
  config_path = [];
  protect_proc = false;
  din_d = false;
}

refreshed-not_stale_example :
    ((classify_persistent
        (with_drop_in (drop_in_conformance opts (some (render_drop_in opts))) inspection)
        true
        true
        true).0
      ≢ stale_drop_in)
    × ((classify_persistent
          (with_drop_in (drop_in_conformance opts (some (render_drop_in opts))) inspection)
          true
          true
          true).0
        ≢ drop_in_newer)
refreshed-not_stale_example = refreshed-not_stale opts inspection true true true

one_line : IsOneLine opts (codes "a") (codes "1") (codes "/")
one_line = record {
  one_line_org = ((λ e. omega (arith, e)), tt);
  one_line_slot = ((λ e. omega (arith, e)), tt);
  one_line_dir = ((λ e. omega (arith, e)), tt);
  one_line_exe = tt;
  one_line_config = tt;
}

written_lane-class_example :
    (classify_ephemeral (
      with_unit
        (ephemeral_conformance opts
          (codes "a")
          (codes "1")
          (codes "/")
          (some (render_ephemeral_unit opts (codes "a") (codes "1") (codes "/"))))
        lane)).0
    ≡ (if lane.active then ephemeral_slot else ephemeral_stuck)
written_lane-class_example =
    written_lane-class opts (codes "a") (codes "1") (codes "/") lane one_line
