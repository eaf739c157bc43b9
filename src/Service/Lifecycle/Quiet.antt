-- ===== src/Service/Lifecycle/Quiet.antt =====
-- The operations that only ask: they make no call, so that what was called before stands.
use srm.Prelude.{Bool, Text}
use srm.Prelude.Int.{ℤ}
use srm.Service.Lifecycle.Model.{Call, Site}
use srm.Service.Lifecycle.Access.{
  require_org, client, list_groups, group_name_by_id, agent_download, DeploySpec,
  apply_profile_defaults,
}
use srm.Service.Lifecycle.Lanes.{occupied_ephemeral_slots}
use srm.Service.Lifecycle.Rules.{Calls, calls_rules}

module _ {w : Site} {Q : Call → Type 0} (org : Text) where
  pub require_org-Calls : Calls w Q (require_org org)
  unfolding require_org
  require_org-Calls = search calls_rules

  pub client-Calls : Calls w Q (client org)
  unfolding client
  client-Calls = search calls_rules

  pub list_groups-Calls : Calls w Q (list_groups org)
  unfolding list_groups
  list_groups-Calls = search (calls_rules, require_org-Calls, client-Calls)

  pub group_name_by_id-Calls : (id : ℤ) → Calls w Q (group_name_by_id org id)
  unfolding group_name_by_id
  group_name_by_id-Calls id = search (calls_rules, list_groups-Calls)

  pub agent_download-Calls : Calls w Q (agent_download org)
  unfolding agent_download
  agent_download-Calls = search (calls_rules, client-Calls)

  pub apply_profile_defaults-Calls :
      (spec : DeploySpec) (b : Bool) → Calls w Q (apply_profile_defaults org spec b)
  unfolding apply_profile_defaults
  apply_profile_defaults-Calls spec b = search calls_rules

  pub occupied_ephemeral_slots-Calls : Calls w Q (occupied_ephemeral_slots org)
  unfolding occupied_ephemeral_slots
  occupied_ephemeral_slots-Calls = search calls_rules
