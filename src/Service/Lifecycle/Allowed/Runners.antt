-- ===== src/Service/Lifecycle/Allowed/Runners.antt =====
-- The calls of the operations on persistent runners.
use srm.Prelude.{ℕ, zero, suc, ◌≡◌, refl, Bool, true, false, Option, none, some, List, [], Text}
use srm.Prelude.Int.{ℤ}
use srm.Service.Reconcile.Model.{Reply, deleted, gone, refused}
use srm.Service.Upgrade.Model.{Download}
use srm.Service.Lifecycle.Model.{Failure, Site, Op}
use srm.Service.Lifecycle.Access.{is_configured, DeploySpec, at_least_one}
use srm.Service.Lifecycle.Rules.{
  Calls, Calls-pure, Calls-bind, Calls-query, Calls-then, calls_rules,
}
use srm.Service.Lifecycle.Runners.{
  annotate, persistent_record, create_from, with_group_of, prepare_host, resolved_spec,
  create_runners, deregister, conclude_destroy, destroy_runner, within, recreate_runner,
}
use srm.Service.Lifecycle.Quiet.{
  client-Calls, group_name_by_id-Calls, agent_download-Calls, apply_profile_defaults-Calls,
}
use srm.Service.Lifecycle.Allowed.{
  IsAllowed, act-Calls, record_created-Calls, forget-Calls, require_org-then, live_only,
  get_or_create_group-Calls,
}

module _ (w : Site) (org : Text) where
  with_group_of-Calls :
      (spec : DeploySpec) (id : ℤ) → Calls w (IsAllowed w org) (with_group_of org spec id)
  unfolding with_group_of
  with_group_of-Calls spec id = search (calls_rules, group_name_by_id-Calls org)

  module _ (c : is_configured org w.cfg ≡ true) (d : w.cfg.dry_run ≡ false) where
    prepare_host-Calls : Calls w (IsAllowed w org) (prepare_host org)
    unfolding prepare_host
    prepare_host-Calls =
        Calls-then _ _ (client-Calls org) (search (calls_rules, act-Calls w org, c, d))

    annotate-Calls :
        (name : Text) (dl : Download) → Calls w (IsAllowed w org) (annotate org name dl)
    unfolding annotate persistent_record
    annotate-Calls name dl =
        Calls-bind _ _ (Calls-query _)
          (λ id. record_created-Calls w org (persistent_record org name _ dl) c d refl)

    create_from-Calls :
        (spec : DeploySpec) (dl : Download) (k i : ℕ) (names : List Text)
        → Calls w (IsAllowed w org) (create_from org spec dl k i names)
    unfolding create_from
    create_from-Calls spec dl zero i names = Calls-pure _
    create_from-Calls spec dl (suc k) i names =
        search (calls_rules, annotate-Calls, act-Calls w org, c, d, create_from-Calls spec dl k)

    conclude_destroy-Calls :
        (b : Bool) (r : Reply) → Calls w (IsAllowed w org) (conclude_destroy b r)
    unfolding conclude_destroy
    conclude_destroy-Calls b deleted = search calls_rules
    conclude_destroy-Calls b gone = search calls_rules
    conclude_destroy-Calls b (refused e) = search calls_rules

    deregister-Calls : (b : Bool) (id : Option ℕ) → Calls w (IsAllowed w org) (deregister org b id)
    unfolding deregister
    deregister-Calls b none = search calls_rules
    deregister-Calls b (some id) =
        Calls-then _ _ (client-Calls org)
          (search (calls_rules, act-Calls w org, c, d, conclude_destroy-Calls))

  pub within-Calls :
      {A : Type 0} (f : Failure → Failure) (m : Op A)
      → Calls w (IsAllowed w org) m
      → Calls w (IsAllowed w org) (within f m)
  unfolding within
  within-Calls f m h = record { at = λ t k. h.at t k }

  pub destroy_runner-Calls : (name : Text) → Calls w (IsAllowed w org) (destroy_runner org name)
  unfolding destroy_runner
  destroy_runner-Calls name = require_org-then w org _ (λ c. Calls-bind _ _ (Calls-query _) (λ id.
      live_only w org _ _ (Calls-pure _) (λ d. search (
        Calls-then,
        calls_rules,
        act-Calls w org,
        forget-Calls w org,
        c,
        d,
        deregister-Calls c d,
      ))))

  pub recreate_runner-Calls :
      (name : Text) (labels : List Text) (id : ℤ)
      → Calls w (IsAllowed w org) (recreate_runner org name labels id)
  unfolding recreate_runner
  recreate_runner-Calls name labels id = require_org-then w org _ (λ c.
      Calls-bind _ _ (group_name_by_id-Calls org id) (λ group.
        Calls-bind _ _ (within-Calls _ _ (destroy_runner-Calls name)) (λ u.
          live_only w org _ _ (Calls-pure _) (λ d. Calls-bind _ _ (agent_download-Calls org) (λ dl.
            Calls-then _ _ (prepare_host-Calls c d)
              (search (calls_rules, annotate-Calls c d, act-Calls w org, c, d)))))))

resolved_spec-Calls :
    (w : Site) (given : DeploySpec) → Calls w (IsAllowed w given.org) (resolved_spec given)
unfolding resolved_spec
resolved_spec-Calls w given =
    search (calls_rules, apply_profile_defaults-Calls given.org, with_group_of-Calls w) depth 12

pub create_runners-Calls :
    (w : Site) (given : DeploySpec) → Calls w (IsAllowed w given.org) (create_runners given)
unfolding create_runners
create_runners-Calls w given = require_org-then w given.org _ (λ c.
    Calls-bind _ _ (resolved_spec-Calls w given) (λ spec.
      Calls-then _ _ (search (calls_rules, get_or_create_group-Calls w)) (
        Calls-bind _ _ (agent_download-Calls given.org) (λ dl.
          live_only w given.org _ _ (Calls-pure _) (λ d.
            Calls-then _ _ (prepare_host-Calls w given.org c d)
              (create_from-Calls w given.org c d spec dl (at_least_one spec.count) 1 []))))))
