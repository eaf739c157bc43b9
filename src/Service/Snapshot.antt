-- ===== src/Service/Snapshot.antt =====
-- The fleet snapshot of internal/service/snapshot.go: the host tier that is merged into it, and its counts.
pub mod Fast
pub mod Merge
use srm.Prelude.{
  ℕ, suc, ◌+◌, Bool, true, false, ◌&&◌, not, Option, none, some, List, [], ◌∷◌, ◌++◌, map,
  if◌then◌else◌, Text, text_eq,
}
use srm.Prelude.Int.{ℤ, pos, ltb_ℤ}
use srm.Runner.Versions.{compare_versions}
use srm.Service.Drift.{
  DriftClass, healthy, drop_in_newer, ephemeral_slot, ephemeral_newer, unaudited, Detail, no_detail,
}
use srm.Service.Reconcile.Model.{Error, RunnerWithOrg, RunnerState, DiskStat, CacheSize, unmeasured}
use srm.Service.Reconcile.{ReconcileReport}

pub record EphemeralSlot : Type 0 where
  pub org : Text
  pub slot : Text
  pub active : Bool
  pub restarts : ℕ
  pub unit_ok : Bool
  pub last_result : Text
  pub mem_peak : ℤ
  pub mem_max : ℤ
  pub mem_cur : ℤ
  pub oom_kills : ℤ
  pub group_id : ℕ
  pub labels : List Text

-- The class "" is `unaudited`.
pub record FusedRunner : Type 0 where
  pub row : RunnerWithOrg
  pub group_name : Text
  pub agent_version : Text
  pub previous_version : Text
  pub template_version : ℕ
  pub configured_at : Text
  pub last_upgrade_at : Text
  pub published : Text
  pub behind : Bool
  pub drift_class : DriftClass
  pub drift_detail : Detail
  pub mem_cur : ℤ
  pub mem_peak : ℤ
  pub mem_max : ℤ
  pub oom_kills : ℤ
  pub host_known : Bool

pub record FusedSlot : Type 0 where
  pub lane : EphemeralSlot
  pub group_name : Text
  pub agent_version : Text
  pub published : Text
  pub behind : Bool
  pub drift_class : DriftClass
  pub drift_detail : Detail

pub record HostHealth : Type 0 where
  pub slice_current : ℤ
  pub slice_max : ℤ
  pub disks : List DiskStat
  pub caches : List CacheSize
  pub loaded : Bool

-- The time 0 stands for the zero time.
pub record FleetSnapshot : Type 0 where
  pub runners : List FusedRunner
  pub slots : List FusedSlot
  pub host : HostHealth
  pub partial_errs : List (Text × Error)
  pub host_tier_available : Bool
  pub host_tier_at : ℕ

-- byKey[org + "\x00" + name]: a later row of the report overwrites an earlier one
unfoldable pub verdict : List RunnerState → Text → Option RunnerState
verdict [] key = none
verdict (st ∷ sts) key = elim (verdict sts key) [
  | some later ↦ some later
  | none ↦ if text_eq (st.org ++ 0 ∷ st.name) key then some st else none
]

unfoldable pub merge_runner : Option RunnerState → FusedRunner → FusedRunner
merge_runner none r = r
merge_runner (some st) r = record r {
  drift_class = st.class;
  drift_detail = st.detail;
  mem_cur = st.mem_cur;
  mem_peak = st.mem_peak;
  mem_max = st.mem_max;
  oom_kills = st.oom_kills;
  host_known = true;
}

unfoldable pub merge_slot : Option RunnerState → FusedSlot → FusedSlot
merge_slot none s = s
merge_slot (some st) s = record s { drift_class = st.class; drift_detail = st.detail }

abbrev pub runner_key : FusedRunner → Text
runner_key r = r.row.org ++ 0 ∷ r.row.runner.name

abbrev pub slot_key : FusedSlot → Text
slot_key s = s.lane.org ++ 0 ∷ s.lane.slot

unfoldable pub merge_host_tier : FleetSnapshot → ReconcileReport → ℕ → FleetSnapshot
unfolding verdict merge_runner merge_slot
merge_host_tier snap rep at = record {
  runners = map (λ r. merge_runner (verdict rep.runners (runner_key r)) r) snap.runners;
  slots = map (λ s. merge_slot (verdict rep.runners (slot_key s)) s) snap.slots;
  host = record {
    slice_current = rep.slice_current;
    slice_max = rep.slice_max;
    disks = rep.disks;
    caches = rep.caches;
    loaded = true;
  };
  partial_errs = snap.partial_errs;
  host_tier_available = true;
  host_tier_at = at;
}

-- class == wanted, for a class without a text of its own
abbrev pub is_class : DriftClass → DriftClass → Bool
is_class healthy healthy = true
is_class drop_in_newer drop_in_newer = true
is_class ephemeral_slot ephemeral_slot = true
is_class ephemeral_newer ephemeral_newer = true
is_class unaudited unaudited = true
is_class _ _ = false

-- The loop `for _, x := range xs { if p(x) { n++ } }`
unfoldable pub count {ℓ} : {A : Type ℓ} → (A → Bool) → List A → ℕ
count p [] = 0
count p (x ∷ xs) = let rest = count p xs in if p x then suc rest else rest

unfoldable pub newer_on_disk : FleetSnapshot → ℕ
unfolding count
newer_on_disk s =
    count (λ (r : FusedRunner). is_class r.drift_class drop_in_newer) s.runners
    + count (λ (l : FusedSlot). is_class l.drift_class ephemeral_newer) s.slots

abbrev pub runner_drifted : FusedRunner → Bool
runner_drifted r =
    r.host_known && (not (is_class r.drift_class unaudited) && not (is_class r.drift_class healthy))

abbrev pub slot_drifted : FusedSlot → Bool
slot_drifted l =
    not (is_class l.drift_class unaudited) && not (is_class l.drift_class ephemeral_slot)

unfoldable pub drift_count : FleetSnapshot → ℕ
unfolding count
drift_count s = count runner_drifted s.runners + count slot_drifted s.slots

unfoldable pub behind_count : FleetSnapshot → ℕ
unfolding count
behind_count s =
    count (λ (r : FusedRunner). r.behind) s.runners + count (λ (l : FusedSlot). l.behind) s.slots

unfoldable pub is_behind : Text → Text → Bool
is_behind installed published =
    not (text_eq installed [])
    && (not (text_eq published []) && ltb_ℤ (compare_versions installed published) (pos 0))
