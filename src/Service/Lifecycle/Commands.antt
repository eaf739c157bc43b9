-- ===== src/Service/Lifecycle/Commands.antt =====
-- Every operation that may change something, as one command.
use srm.Prelude.{ℕ, List, Text}
use srm.Prelude.Int.{ℤ}
use srm.Service.Lifecycle.Model.{Call, Op, ◌>>◌, pure}
use srm.Service.Lifecycle.Access.{DeploySpec}
use srm.Service.Lifecycle.Access
use srm.Service.Lifecycle.Runners
use srm.Service.Lifecycle.Lanes
use srm.Service.Lifecycle.Groups

pub data Command : Type 0 where
  create_runners create_ephemeral_runners : DeploySpec → Command
  recreate_runner : Text → Text → List Text → ℤ → Command
  destroy_runner recreate_ephemeral_slot destroy_ephemeral_slot : Text → Text → Command
  create_group : Text → Text → Text → Command
  update_group : Text → ℤ → Text → Text → Command
  delete_group : Text → ℤ → Command
  set_group_repos : Text → ℤ → List ℕ → Command
  move_runner_to_group : Text → ℕ → ℤ → Command
  move_runner_to_group_by_name : Text → ℕ → Text → Command
  set_retention : Text → ℤ → Command
  delete_runner : Text → ℤ → Command

abbrev pub void : {A : Type 0} → Op A → Op (Unit {0})
void m = m >> pure tt

unfoldable pub execute : Command → Op (Unit {0})
execute (create_runners spec) = void (Runners.create_runners spec)
execute (create_ephemeral_runners spec) = void (Lanes.create_ephemeral_runners spec)
execute (recreate_runner org name labels id) = Runners.recreate_runner org name labels id
execute (destroy_runner org name) = Runners.destroy_runner org name
execute (recreate_ephemeral_slot org slot) = Lanes.recreate_ephemeral_slot org slot
execute (destroy_ephemeral_slot org slot) = Lanes.destroy_ephemeral_slot org slot
execute (create_group org name visibility) = void (Access.create_group org name visibility)
execute (update_group org id name visibility) = void (Groups.update_group org id name visibility)
execute (delete_group org id) = Groups.delete_group org id
execute (set_group_repos org id repos) = Groups.set_group_repos org id repos
execute (move_runner_to_group org runner id) = Groups.move_runner_to_group org runner id
execute (move_runner_to_group_by_name org runner name) =
    Groups.move_runner_to_group_by_name org runner name
execute (set_retention org days) = Groups.set_retention org days
execute (delete_runner org id) = Groups.delete_runner org id

-- The org that a command names
abbrev pub org_of : Command → Text
org_of (create_runners spec) = spec.org
org_of (create_ephemeral_runners spec) = spec.org
org_of (recreate_runner org _ _ _) = org
org_of (destroy_runner org _) = org
org_of (recreate_ephemeral_slot org _) = org
org_of (destroy_ephemeral_slot org _) = org
org_of (create_group org _ _) = org
org_of (update_group org _ _ _) = org
org_of (delete_group org _) = org
org_of (set_group_repos org _ _) = org
org_of (move_runner_to_group org _ _) = org
org_of (move_runner_to_group_by_name org _ _) = org
org_of (set_retention org _) = org
org_of (delete_runner org _) = org

-- The org that a call is about
abbrev pub called_org : Call → Text
called_org (Call.create_group org _ _) = org
called_org (Call.update_group org _ _ _) = org
called_org (Call.delete_group org _) = org
called_org (Call.set_group_repos org _ _) = org
called_org (Call.add_runner_to_group org _ _) = org
called_org (Call.set_retention org _) = org
called_org (Call.mint_token org) = org
called_org (Call.ensure_base org) = org
called_org (Call.create_runner spec _) = spec.org
called_org (Call.ensure_slot spec _) = spec.org
called_org (Call.remove_runner org _) = org
called_org (Call.remove_slot org _) = org
called_org (Call.refresh_unit org _) = org
called_org (Call.delete_runner org _) = org
called_org (Call.put_entry rec) = rec.org
called_org (Call.drop_entry _ org _) = org
