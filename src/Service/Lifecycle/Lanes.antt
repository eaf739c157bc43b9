-- ===== src/Service/Lifecycle/Lanes.antt =====
-- CreateEphemeralRunners, DestroyEphemeralSlot and RecreateEphemeralSlot of internal/service/ephemeral.go.
use srm.Prelude.{
  ℕ, Bool, true, ◌&&◌, not, Option, none, some, List, [], ◌∷◌, ◌++◌, leb, if◌then◌else◌, Text,
  text_eq,
}
use srm.Prelude.Int.{ℤ, pos, negsuc, ltb_ℤ, eqb_ℤ}
use srm.Config.{org_names}
use srm.Runner.Units.Marker.{current_ephemeral_version}
use srm.Runner.Versions.{atoi, version_from_url}
use srm.Service.UnitNames.{orgs_by_len, parse_ephemeral_unit_name}
use srm.Service.Manifest.{RunnerRecord, ephemeral}
use srm.Service.Slots.{allocate_ephemeral_slots}
use srm.Service.Reconcile.Model.{Reply, deleted, gone, refused}
use srm.Service.Upgrade.Model.{Download}
use srm.Service.Cycle.{EphemeralParams, default_group_id}
use srm.Service.Lifecycle.Model.{
  no_units, bad_slot, out_of_fuel, host_error, not_created, not_destroyed, not_deregistered,
  ensure_slot, remove_slot, EphemeralSlotSpec, Result, ok, err, Op, ◌>>=◌, ◌>>◌, pure, raise, guard,
  or_raise, ask, query, call, record_created, forget, attempt,
}
use srm.Service.Lifecycle.Access.{
  require_org, client, get_or_create_group, agent_download, DeploySpec, apply_profile_defaults,
  at_least_one, with_labels, org_url,
}
use srm.Service.Lifecycle.Runners.{dry_run, or_empty, Created, ask_deletion, within}

-- validSlot
unfoldable pub all_digits : Text → Bool
all_digits [] = true
all_digits (r ∷ s) = (leb b'0' r && leb r b'9') && all_digits s

unfoldable pub valid_slot : Text → Bool
unfolding all_digits
valid_slot s = not (text_eq s []) && all_digits s

-- The number of a slot, if it is one that an allocation may find
abbrev pub numeric : Option ℤ → List ℕ → List ℕ
numeric (some (pos n)) rest = n ∷ rest
numeric (some (negsuc n)) rest = rest
numeric none rest = rest

abbrev pub slot_of : Text → Option (Text × Text) → List ℕ → List ℕ
slot_of org none rest = rest
slot_of org (some (o, slot)) rest = if text_eq o org then numeric (atoi slot) rest else rest

-- The numbers of the slots of an org that have a unit
unfoldable pub occupied_by : Text → List Text → List Text → List ℕ
occupied_by org orgs [] = []
occupied_by org orgs (svc ∷ units) =
    slot_of org (parse_ephemeral_unit_name svc orgs) (occupied_by org orgs units)

unfoldable pub occupied_ephemeral_slots : Text → Op (List ℕ)
unfolding occupied_by
occupied_ephemeral_slots org = do
  answer ← query (λ w t. w.list_ephemeral_units t)
  units ← or_raise answer no_units
  ask (λ c. occupied_by org (orgs_by_len (org_names c)) units)

unfoldable pub ephemeral_record : Text → Text → Download → RunnerRecord
ephemeral_record org slot dl = record {
  kind = ephemeral;
  org = org;
  name = slot;
  github_runner_id = 0;
  agent_version = or_empty (version_from_url dl.url);
  previous_version = [];
  template_version = current_ephemeral_version;
  configured_at = [];
  last_upgrade_at = [];
}

abbrev pub slot_spec : Text → Text → List Text → ℤ → EphemeralSlotSpec
slot_spec org slot labels group_id = record {
  org = org;
  slot = slot;
  url = org_url org;
  labels = labels;
  group_id = group_id;
}

-- The loop over the allocated slots
unfoldable pub create_slots : Text → List Text → ℤ → Download → List Text → List Text → Op Created
create_slots org labels group_id dl [] slots = pure (slots, none)
create_slots org labels group_id dl (slot ∷ alloc) slots = do
  done ← call (ensure_slot (slot_spec org slot labels group_id) dl)
  if done
      then (do
        record_created (ephemeral_record org slot dl)
        create_slots org labels group_id dl alloc (slots ++ slot ∷ []))
      else pure (slots, some (not_created slot host_error))

-- The group by its name, else by its id; 0 if there is neither
unfoldable pub lane_group : Text → DeploySpec → Op ℤ
lane_group org spec = do
  named ←
      if text_eq spec.group []
      then pure (pos 0)
      else (do g ← get_or_create_group org spec.group; pure g.id)
  pure (if eqb_ℤ named (pos 0) && ltb_ℤ (pos 0) spec.group_id then spec.group_id else named)

-- `if groupID == 0 { groupID = m.defaultGroupID(org) }`
abbrev pub or_default : ℤ → ℤ → ℤ
or_default id default_id = if eqb_ℤ id (pos 0) then default_id else id

unfoldable pub lane_spec : DeploySpec → Op DeploySpec
lane_spec given = do
  seeded ← apply_profile_defaults given.org given true
  ask (with_labels given.org seeded)

unfoldable pub create_ephemeral_runners : DeploySpec → Op Created
create_ephemeral_runners given = do
  require_org given.org
  spec ← lane_spec given
  by_id ← lane_group given.org spec
  default_id ← ask (λ c. default_group_id c given.org)
  let group_id = or_default by_id default_id
  dl ← agent_download given.org
  occupied ← occupied_ephemeral_slots given.org
  alloc ← or_raise (allocate_ephemeral_slots occupied (at_least_one spec.count)) out_of_fuel
  dry ← dry_run
  if dry then pure (alloc, none) else create_slots given.org spec.labels group_id dl alloc []

-- A refused deletion ends the operation; without a client none is tried.
abbrev pub judge_deletion : ℤ → Reply → Op (Unit {0})
judge_deletion id deleted = pure tt
judge_deletion id gone = pure tt
judge_deletion id (refused e) = raise (not_deregistered id)

abbrev pub with_built : Text → ℤ → Result (Unit {0}) → Op (Unit {0})
with_built org id (err e) = pure tt
with_built org id (ok u) = do reply ← ask_deletion org id; judge_deletion id reply

unfoldable pub deregister_pending : Text → ℤ → Op (Unit {0})
deregister_pending org id =
    if eqb_ℤ id (pos 0) then pure tt else (do built ← attempt (client org); with_built org id built)

unfoldable pub destroy_ephemeral_slot : Text → Text → Op (Unit {0})
destroy_ephemeral_slot org slot = do
  require_org org
  guard (valid_slot slot) bad_slot
  dry ← dry_run
  if dry then pure tt else (do
    id ← query (λ w t. w.pending_jit t org slot)
    deregister_pending org id
    removed ← call (remove_slot org slot)
    forget ephemeral org slot
    guard removed host_error)

abbrev labels_of : Option EphemeralParams → List Text
labels_of none = []
labels_of (some p) = p.labels

abbrev group_of : Option EphemeralParams → ℤ
group_of none = pos 0
group_of (some p) = p.group_id

unfoldable pub recreate_ephemeral_slot : Text → Text → Op (Unit {0})
recreate_ephemeral_slot org slot = do
  require_org org
  guard (valid_slot slot) bad_slot
  params ← query (λ w t. w.mint_params t org slot)
  within (not_destroyed slot) (destroy_ephemeral_slot org slot)
  dry ← dry_run
  if dry then pure tt else (do
    dl ← agent_download org
    default_id ← ask (λ c. default_group_id c org)
    let gid = or_default (group_of params) default_id
    done ← call (ensure_slot (slot_spec org slot (labels_of params) gid) dl)
    guard done (not_created slot host_error)
    record_created (ephemeral_record org slot dl))
