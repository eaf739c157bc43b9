-- ===== src/Service/Drift.antt =====
-- The drift classes of internal/service/reconcile.go, and what runner.Inspect reports of a unit
-- (internal/runner/inspect.go). A message is a constructor that holds the values printed into it.
pub mod Laws
pub mod Refresh
use srm.Prelude.{ℕ, Bool, true, false, ◌&&◌, not, [], ◌==◌, if◌then◌else◌, Text, codes, text_eq}
use srm.Prelude.Int.{ℤ}

-- The constants Class...; the empty string is `unaudited`.
pub data DriftClass : Type 0 where
  healthy orphan_unit stale_drop_in drop_in_newer stuck legacy_flat orphan_github : DriftClass
  unknown ephemeral_slot ephemeral_stuck ephemeral_newer unaudited : DriftClass
  other : Text → DriftClass

-- The constants Ephemeral...
pub data SlotState : Type 0 where
  slot_active slot_down slot_crash_loop slot_unit_drift : SlotState

pub data Detail : Type 0 where
  no_detail list_failed not_registered flat_path drop_in_differs : Detail
  unit_not_active offline_on_github no_managed_unit slot_healthy unit_drifted : Detail
  slot_inactive ghost : Detail
  newer_drop_in : ℕ → Detail
  newer_unit : ℕ → Detail
  crash_looping : Text → Detail

pub record Inspection : Type 0 where
  pub unit_exists : Bool
  pub active : Bool
  pub user : Text
  pub has_tree : Bool
  pub has_flat_tree : Bool
  pub drop_in_ok : Bool
  pub drop_in_ver : ℕ
  pub drop_in_newer : Bool
  pub mem_peak_bytes : ℤ
  pub mem_max_bytes : ℤ
  pub mem_cur_bytes : ℤ
  pub oom_kills : ℤ

pub record EphemeralInspection : Type 0 where
  pub unit_exists : Bool
  pub active : Bool
  pub restarts : ℕ
  pub last_result : Text
  pub unit_ok : Bool
  pub unit_ver : ℕ
  pub unit_newer : Bool
  pub mem_peak_bytes : ℤ
  pub mem_max_bytes : ℤ
  pub mem_cur_bytes : ℤ
  pub oom_kills : ℤ

unfoldable pub ephemeral_slot_state : Bool → Bool → Text → SlotState × Bool
ephemeral_slot_state active unit_ok last_result =
    if active && unit_ok
    then (slot_active, true)
    else if not unit_ok
    then (slot_unit_drift, false)
    else if not (text_eq last_result []) && not (text_eq last_result (codes "success"))
    then (slot_crash_loop, false)
    else (slot_down, false)

unfoldable pub class_label : DriftClass → Text
class_label healthy = codes "ok"
class_label ephemeral_slot = codes "ok"
class_label stale_drop_in = codes "stale"
class_label drop_in_newer = codes "newer"
class_label ephemeral_newer = codes "newer"
class_label stuck = codes "stuck"
class_label ephemeral_stuck = codes "stuck"
class_label orphan_unit = codes "orphan"
class_label orphan_github = codes "ghost"
class_label legacy_flat = codes "legacy"
class_label unknown = codes "unknown"
class_label unaudited = codes "unaudited"
class_label (other class) = class

unfoldable pub classify_persistent : Inspection → Bool → Bool → Bool → DriftClass × Detail
classify_persistent insp on_github org_listed_ok online =
    if not on_github && not org_listed_ok
    then (unknown, list_failed)
    else if not on_github
    then (orphan_unit, not_registered)
    else if insp.has_flat_tree && not insp.has_tree
    then (legacy_flat, flat_path)
    else if insp.drop_in_newer
    then (drop_in_newer, newer_drop_in insp.drop_in_ver)
    else if not insp.drop_in_ok
    then (stale_drop_in, drop_in_differs)
    else if not insp.active
    then (stuck, unit_not_active)
    else if not online
    then (stuck, offline_on_github)
    else (healthy, no_detail)

unfoldable pub ephemeral_detail : SlotState → EphemeralInspection → Detail
ephemeral_detail slot_unit_drift insp = unit_drifted
ephemeral_detail slot_crash_loop insp = crash_looping insp.last_result
ephemeral_detail _ insp = slot_inactive

unhealthy_or : EphemeralInspection → SlotState × Bool → DriftClass × Detail
unfolding ephemeral_detail
unhealthy_or insp (label, true) = (ephemeral_slot, slot_healthy)
unhealthy_or insp (label, false) = (ephemeral_stuck, ephemeral_detail label insp)

unfoldable pub classify_ephemeral : EphemeralInspection → DriftClass × Detail
unfolding unhealthy_or ephemeral_slot_state
classify_ephemeral insp =
    if insp.unit_newer
    then (ephemeral_newer, newer_unit insp.unit_ver)
    else unhealthy_or insp (ephemeral_slot_state insp.active insp.unit_ok insp.last_result)
