-- ===== src/Service/Lifecycle/Safety.antt =====
-- Every command: what it calls.
use srm.Prelude.{◌≡◌, [], All}
use srm.Service.Lifecycle.Model.{Call, Site, Trail, Op}
use srm.Service.Lifecycle.Rules.{Calls, Calls-pure, Calls-then}
use srm.Service.Lifecycle.Allowed.{IsAllowed, create_group-Calls}
use srm.Service.Lifecycle.Allowed.Runners.{
  create_runners-Calls, recreate_runner-Calls, destroy_runner-Calls,
}
use srm.Service.Lifecycle.Allowed.Lanes.{
  create_ephemeral_runners-Calls, recreate_ephemeral_slot-Calls, destroy_ephemeral_slot-Calls,
  update_group-Calls, delete_group-Calls, set_group_repos-Calls, move_runner_to_group-Calls,
  move_runner_to_group_by_name-Calls, set_retention-Calls, delete_runner-Calls,
}
use srm.Service.Lifecycle.Commands.{
  Command, create_runners, create_ephemeral_runners, recreate_runner, destroy_runner,
  recreate_ephemeral_slot, destroy_ephemeral_slot, create_group, update_group, delete_group,
  set_group_repos, move_runner_to_group, move_runner_to_group_by_name, set_retention, delete_runner,
  void, execute, org_of,
}

void-Calls :
    {A : Type 0} (w : Site) (Q : Call → Type 0) (m : Op A) → Calls w Q m → Calls w Q (void m)
void-Calls w Q m h = Calls-then m _ h (Calls-pure _)

execute-Calls : (w : Site) (c : Command) → Calls w (IsAllowed w (org_of c)) (execute c)
unfolding execute
execute-Calls w (create_runners spec) = void-Calls w _ _ (create_runners-Calls w spec)
execute-Calls w (create_ephemeral_runners spec) =
    void-Calls w _ _ (create_ephemeral_runners-Calls w spec)
execute-Calls w (recreate_runner org name labels id) = recreate_runner-Calls w org name labels id
execute-Calls w (destroy_runner org name) = destroy_runner-Calls w org name
execute-Calls w (recreate_ephemeral_slot org slot) = recreate_ephemeral_slot-Calls w org slot
execute-Calls w (destroy_ephemeral_slot org slot) = destroy_ephemeral_slot-Calls w org slot
execute-Calls w (create_group org name visibility) =
    void-Calls w _ _ (create_group-Calls w org name visibility)
execute-Calls w (update_group org id name visibility) =
    void-Calls w _ _ (update_group-Calls w org id name visibility)
execute-Calls w (delete_group org id) = delete_group-Calls w org id
execute-Calls w (set_group_repos org id repos) = set_group_repos-Calls w org id repos
execute-Calls w (move_runner_to_group org runner id) = move_runner_to_group-Calls w org runner id
execute-Calls w (move_runner_to_group_by_name org runner name) =
    move_runner_to_group_by_name-Calls w org runner name
execute-Calls w (set_retention org days) = set_retention-Calls w org days
execute-Calls w (delete_runner org id) = delete_runner-Calls w org id

-- Whatever a command is and whatever GitHub and the host answer: each call that changes GitHub, the host
-- or the manifest is about the org that the command names, that org is configured, and the configuration
-- does not ask for a dry run.
pub execute-IsAllowed :
    (w : Site) (c : Command) (t : Trail)
    → t.log ≡ []
    → All (IsAllowed w (org_of c)) (execute c w t).1.log
execute-IsAllowed w c t e = (execute-Calls w c).at t (rw e tt)
