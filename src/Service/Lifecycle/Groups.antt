-- ===== src/Service/Lifecycle/Groups.antt =====
-- The group operations of internal/service/groups.go, and CreateGroup (deploy.go), DeleteRunner and
-- SetRetention (manager.go).
use srm.Prelude.{ℕ, not, Option, none, some, List, if◌then◌else◌, find_first, Text, text_eq}
use srm.Prelude.Int.{ℤ, eqb_ℤ}
use srm.Service.Reconcile.Model.{Reply, deleted, gone, refused}
use srm.Service.Lifecycle.Model.{
  Group, no_group, not_grouped, default_group, api_error, Call, Op, ◌>>=◌, ◌>>◌, pure, raise, guard,
  or_raise, act, call,
}
use srm.Service.Lifecycle.Access.{require_org, client, list_groups, default_group_number}
use srm.Service.Lifecycle.Runners.{dry_run, ask_deletion}

-- The call is made unless this is a dry run.
unfoldable pub change : Text → Call → Op (Unit {0})
change org c = do
  dry ← dry_run
  if dry then pure tt else (do client org; done ← call c; guard done api_error)

unfoldable pub update_group : Text → ℤ → Text → Text → Op Group
update_group org id name visibility = do
  require_org org
  guard (not (eqb_ℤ id default_group_number)) default_group
  dry ← dry_run
  if dry then pure (record { id = id; name = name; visibility = visibility }) else (do
    client org
    g ←
        act (Call.update_group org id name visibility)
          (λ w t. w.group_reply t (Call.update_group org id name visibility))
    or_raise g not_grouped)

unfoldable pub delete_group : Text → ℤ → Op (Unit {0})
delete_group org id = do
  require_org org
  guard (not (eqb_ℤ id default_group_number)) default_group
  change org (Call.delete_group org id)

unfoldable pub set_group_repos : Text → ℤ → List ℕ → Op (Unit {0})
set_group_repos org id repos = do require_org org; change org (Call.set_group_repos org id repos)

unfoldable pub move_runner_to_group : Text → ℕ → ℤ → Op (Unit {0})
move_runner_to_group org runner id = do
  require_org org
  change org (Call.add_runner_to_group org id runner)

abbrev pub move_to : Text → ℕ → Option Group → Op (Unit {0})
move_to org runner (some g) = move_runner_to_group org runner g.id
move_to org runner none = raise no_group

unfoldable pub move_runner_to_group_by_name : Text → ℕ → Text → Op (Unit {0})
move_runner_to_group_by_name org runner group = do
  require_org org
  groups ← list_groups org
  move_to org runner (find_first (λ (g : Group). text_eq g.name group) groups)

unfoldable pub set_retention : Text → ℤ → Op (Unit {0})
set_retention org days = do require_org org; change org (Call.set_retention org days)

abbrev pub conclude : Reply → Op (Unit {0})
conclude deleted = pure tt
conclude gone = raise api_error
conclude (refused e) = raise api_error

unfoldable pub delete_runner : Text → ℤ → Op (Unit {0})
delete_runner org id = do
  require_org org
  dry ← dry_run
  if dry then pure tt else (do client org; reply ← ask_deletion org id; conclude reply)
