-- ===== src/Service/Lifecycle/Allowed/Lanes.antt =====
-- The calls of the operations on lanes and groups.
use srm.Prelude.{ℕ, ◌≡◌, refl, true, false, Option, none, some, List, [], ◌∷◌, Text}
use srm.Prelude.Int.{ℤ}
use srm.Service.Reconcile.Model.{Reply, deleted, gone, refused}
use srm.Service.Upgrade.Model.{Download}
use srm.Service.Lifecycle.Model.{Group, Call, Site, record_created, Result, ok, err}
use srm.Service.Lifecycle.Access.{is_configured, DeploySpec}
use srm.Service.Lifecycle.Rules.{
  Calls, Calls-pure, Calls-raise, Calls-guard, Calls-if, Calls-bind, Calls-then, Calls-query,
  Calls-ask, Calls-or_raise, Calls-attempt, calls_rules,
}
use srm.Service.Lifecycle.Lanes.{
  create_slots, ephemeral_record, lane_group, lane_spec, create_ephemeral_runners,
  deregister_pending, with_built, judge_deletion, destroy_ephemeral_slot, recreate_ephemeral_slot,
}
use srm.Service.Lifecycle.Groups.{
  change, update_group, delete_group, set_group_repos, move_to, move_runner_to_group,
  move_runner_to_group_by_name, set_retention, delete_runner, conclude,
}
use srm.Service.Lifecycle.Quiet.{
  occupied_ephemeral_slots-Calls, client-Calls, list_groups-Calls, agent_download-Calls,
  apply_profile_defaults-Calls,
}
use srm.Service.Lifecycle.Allowed.{
  IsAllowed, act-Calls, record_created-Calls, forget-Calls, require_org-then, live_only,
  get_or_create_group-Calls,
}
use srm.Service.Lifecycle.Allowed.Runners.{within-Calls}
use srm.Service.Lifecycle.Commands.{called_org}

module _ (w : Site) (org : Text) where
  lane_group-Calls : (spec : DeploySpec) → Calls w (IsAllowed w org) (lane_group org spec)
  unfolding lane_group
  lane_group-Calls spec = search (calls_rules, get_or_create_group-Calls w org) depth 12

  module _ (c : is_configured org w.cfg ≡ true) (d : w.cfg.dry_run ≡ false) where
    lane_entry-Calls :
        (slot : Text) (dl : Download)
        → Calls w (IsAllowed w org) (record_created (ephemeral_record org slot dl))
    unfolding ephemeral_record
    lane_entry-Calls slot dl = record_created-Calls w org (ephemeral_record org slot dl) c d refl

    create_slots-Calls :
        (labels : List Text) (id : ℤ) (dl : Download) (alloc slots : List Text)
        → Calls w (IsAllowed w org) (create_slots org labels id dl alloc slots)
    unfolding create_slots
    create_slots-Calls labels id dl [] slots = Calls-pure _
    create_slots-Calls labels id dl (slot ∷ alloc) slots = search (
      calls_rules,
      act-Calls w org,
      lane_entry-Calls,
      c,
      d,
      create_slots-Calls labels id dl alloc,
    )

    judge_deletion-Calls : (id : ℤ) (r : Reply) → Calls w (IsAllowed w org) (judge_deletion id r)
    judge_deletion-Calls id deleted = search calls_rules
    judge_deletion-Calls id gone = search calls_rules
    judge_deletion-Calls id (refused e) = search calls_rules

    with_built-Calls :
        (id : ℤ) (r : Result (Unit {0})) → Calls w (IsAllowed w org) (with_built org id r)
    with_built-Calls id (err e) = search calls_rules
    with_built-Calls id (ok u) =
        Calls-bind _ _ (act-Calls w org _ _ c d refl) (λ r. judge_deletion-Calls id r)

    deregister_pending-Calls : (id : ℤ) → Calls w (IsAllowed w org) (deregister_pending org id)
    unfolding deregister_pending
    deregister_pending-Calls id =
        Calls-if _ _ _ (λ _. Calls-pure _)
          (λ _. Calls-bind _ _ (Calls-attempt _ (client-Calls org)) (with_built-Calls id))

  change-Calls :
      is_configured org w.cfg ≡ true
      → (k : Call) → called_org k ≡ org
      → Calls w (IsAllowed w org) (change org k)
  unfolding change
  change-Calls c k e = live_only w org _ _ (Calls-pure _) (λ d.
      Calls-then _ _ (client-Calls org)
        (Calls-bind _ _ (act-Calls w org k _ c d e) (λ b. Calls-guard b _)))

  pub destroy_ephemeral_slot-Calls :
      (slot : Text) → Calls w (IsAllowed w org) (destroy_ephemeral_slot org slot)
  unfolding destroy_ephemeral_slot
  destroy_ephemeral_slot-Calls slot = require_org-then w org _ (λ c.
      Calls-then _ _ (Calls-guard _ _) (
        live_only w org _ _ (Calls-pure _) (λ d. Calls-bind _ _ (Calls-query _) (λ id.
          Calls-then _ _ (deregister_pending-Calls c d id)
            (search (calls_rules, act-Calls w org, forget-Calls w org, c, d))))))

  pub recreate_ephemeral_slot-Calls :
      (slot : Text) → Calls w (IsAllowed w org) (recreate_ephemeral_slot org slot)
  unfolding recreate_ephemeral_slot
  recreate_ephemeral_slot-Calls slot = require_org-then w org _ (λ c.
      Calls-then _ _ (Calls-guard _ _) (
        Calls-bind _ _ (Calls-query _) (λ params.
          Calls-then _ _ (within-Calls w org _ _ (destroy_ephemeral_slot-Calls slot)) (
            live_only w org _ _ (Calls-pure _) (λ d.
              Calls-bind _ _ (agent_download-Calls org) (λ dl.
                search (calls_rules, act-Calls w org, lane_entry-Calls c d, c, d) depth 12))))))

  pub update_group-Calls :
      (id : ℤ) (name visibility : Text)
      → Calls w (IsAllowed w org) (update_group org id name visibility)
  unfolding update_group
  update_group-Calls id name visibility = require_org-then w org _ (λ c.
      Calls-then _ _ (Calls-guard _ _) (
        live_only w org _ _ (Calls-pure _) (λ d.
          Calls-then _ _ (client-Calls org)
            (Calls-bind _ _ (act-Calls w org _ _ c d refl) (λ g. Calls-or_raise g _)))))

  pub delete_group-Calls : (id : ℤ) → Calls w (IsAllowed w org) (delete_group org id)
  unfolding delete_group
  delete_group-Calls id =
      require_org-then w org _
        (λ c. Calls-then _ _ (Calls-guard _ _) (change-Calls c (Call.delete_group org id) refl))

  pub set_group_repos-Calls :
      (id : ℤ) (repos : List ℕ) → Calls w (IsAllowed w org) (set_group_repos org id repos)
  unfolding set_group_repos
  set_group_repos-Calls id repos =
      require_org-then w org _ (λ c. change-Calls c (Call.set_group_repos org id repos) refl)

  pub move_runner_to_group-Calls :
      (runner : ℕ) (id : ℤ) → Calls w (IsAllowed w org) (move_runner_to_group org runner id)
  unfolding move_runner_to_group
  move_runner_to_group-Calls runner id =
      require_org-then w org _ (λ c. change-Calls c (Call.add_runner_to_group org id runner) refl)

  move_to-Calls : (runner : ℕ) (g : Option Group) → Calls w (IsAllowed w org) (move_to org runner g)
  move_to-Calls runner none = Calls-raise _
  move_to-Calls runner (some g) = move_runner_to_group-Calls runner g.id

  pub move_runner_to_group_by_name-Calls :
      (runner : ℕ) (group : Text)
      → Calls w (IsAllowed w org) (move_runner_to_group_by_name org runner group)
  unfolding move_runner_to_group_by_name
  move_runner_to_group_by_name-Calls runner group =
      require_org-then w org _
        (λ c. Calls-bind _ _ (list_groups-Calls org) (λ gs. move_to-Calls runner _))

  pub set_retention-Calls : (days : ℤ) → Calls w (IsAllowed w org) (set_retention org days)
  unfolding set_retention
  set_retention-Calls days =
      require_org-then w org _ (λ c. change-Calls c (Call.set_retention org days) refl)

  conclude-Calls : (r : Reply) → Calls w (IsAllowed w org) (conclude r)
  conclude-Calls deleted = Calls-pure _
  conclude-Calls gone = Calls-raise _
  conclude-Calls (refused e) = Calls-raise _

  pub delete_runner-Calls : (id : ℤ) → Calls w (IsAllowed w org) (delete_runner org id)
  unfolding delete_runner
  delete_runner-Calls id = require_org-then w org _ (λ c. live_only w org _ _ (Calls-pure _) (λ d.
      Calls-then _ _ (client-Calls org)
        (Calls-bind _ _ (act-Calls w org _ _ c d refl) conclude-Calls)))

lane_spec-Calls :
    (w : Site) (given : DeploySpec) → Calls w (IsAllowed w given.org) (lane_spec given)
unfolding lane_spec
lane_spec-Calls w given = search (calls_rules, apply_profile_defaults-Calls given.org)

pub create_ephemeral_runners-Calls :
    (w : Site) (given : DeploySpec)
    → Calls w (IsAllowed w given.org) (create_ephemeral_runners given)
unfolding create_ephemeral_runners
create_ephemeral_runners-Calls w given = require_org-then w given.org _ (λ c.
    Calls-bind _ _ (lane_spec-Calls w given) (λ spec.
      Calls-bind _ _ (lane_group-Calls w given.org spec) (λ id.
        Calls-bind _ _ (Calls-ask _) (λ default_id.
          Calls-bind _ _ (agent_download-Calls given.org) (λ dl.
            Calls-bind _ _ (occupied_ephemeral_slots-Calls given.org) (λ occupied.
              Calls-bind _ _ (Calls-or_raise _ _) (λ alloc.
                live_only w given.org _ _ (Calls-pure _)
                  (λ d. create_slots-Calls w given.org c d spec.labels _ dl alloc []))))))))
