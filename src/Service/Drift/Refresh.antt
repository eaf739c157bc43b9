-- ===== src/Service/Drift/Refresh.antt =====
-- The class of a unit that was just written: by RefreshUnit (internal/runner/orchestrator.go), or for a lane.
use srm.Prelude.{◌≡◌, ◌≢◌, Bool, some, if◌then◌else◌, arith, Text}
use srm.Runner.Units.Render.{Options, render_drop_in, render_ephemeral_unit}
use srm.Runner.Units.Marker.{Conformance, drop_in_conformance, ephemeral_conformance}
use srm.Runner.Units.Converge.{drop_in_conformance-render_drop_in}
use srm.Runner.Units.Lane.{IsOneLine, ephemeral_conformance-render_ephemeral_unit}
use srm.Service.Drift.{
  ephemeral_slot, ephemeral_stuck, EphemeralInspection, classify_ephemeral, stale_drop_in,
  drop_in_newer, Inspection, classify_persistent,
}

-- What Inspect reports of a unit with this drop-in
abbrev pub with_drop_in : Conformance → Inspection → Inspection
with_drop_in k insp = record insp {
  drop_in_ok = k.ok;
  drop_in_ver = k.ver;
  drop_in_newer = k.newer;
}

-- Once the drop-in of a unit is written, and its orchestrator's options are as they were, the unit's class is
-- neither that of a stale drop-in nor that of one newer than this program, whatever else is seen of it.
pub refreshed-not_stale :
    (opts : Options) (insp : Inspection) (on_github listed online : Bool)
    → ((classify_persistent
          (with_drop_in (drop_in_conformance opts (some (render_drop_in opts))) insp)
          on_github
          listed
          online).0
        ≢ stale_drop_in)
      × ((classify_persistent
            (with_drop_in (drop_in_conformance opts (some (render_drop_in opts))) insp)
            on_github
            listed
            online).0
          ≢ drop_in_newer)
unfolding classify_persistent
refreshed-not_stale opts insp on_github listed online =
    rw (drop_in_conformance-render_drop_in opts)
      ((λ e. ground (arith, e)), (λ e. ground (arith, e)))

-- What InspectEphemeral reports of a lane with this unit
abbrev pub with_unit : Conformance → EphemeralInspection → EphemeralInspection
with_unit k insp = record insp { unit_ok = k.ok; unit_ver = k.ver; unit_newer = k.newer }

-- Once the unit of a lane is written, from an org, a slot, a directory, a program and a configuration path
-- without a newline, and its orchestrator's options are as they were, the lane is called healthy exactly if it
-- is active, and stuck otherwise.
pub written_lane-class :
    (opts : Options) (org slot work_dir : Text) (insp : EphemeralInspection)
    → IsOneLine opts org slot work_dir
    → (classify_ephemeral (
        with_unit
          (ephemeral_conformance opts org slot work_dir
            (some (render_ephemeral_unit opts org slot work_dir)))
          insp)).0
      ≡ (if insp.active then ephemeral_slot else ephemeral_stuck)
unfolding classify_ephemeral
written_lane-class opts org slot work_dir insp o =
    rw (ephemeral_conformance-render_ephemeral_unit opts org slot work_dir o) (ground arith)
