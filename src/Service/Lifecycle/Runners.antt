-- ===== src/Service/Lifecycle/Runners.antt =====
-- CreateRunners, RecreateRunner and DestroyRunner of internal/service/deploy.go.
use srm.Prelude.{
  ℕ, zero, suc, Bool, false, ◌&&◌, not, Option, none, some, List, [], ◌∷◌, ◌++◌, if◌then◌else◌,
  Text, text_eq,
}
use srm.Prelude.Int.{ℤ, pos, ltb_ℤ}
use srm.Prelude.Decimal.{decimal}
use srm.Runner.Units.Marker.{current_drop_in_version}
use srm.Runner.Versions.{version_from_url}
use srm.Service.Manifest.{RunnerRecord, persistent}
use srm.Service.Reconcile.Model.{Reply, deleted, gone, refused}
use srm.Service.Upgrade.Model.{Download}
use srm.Service.Cycle.{default_group_id}
use srm.Service.Lifecycle.Model.{
  Failure, no_token, no_base, no_id, host_error, api_error, not_created, not_destroyed, Call,
  mint_token, ensure_base, remove_runner, delete_runner, RunnerSpec, ok, err, Op, ◌>>=◌, ◌>>◌, pure,
  raise, guard, or_raise, ask, query, act, call, record_created, forget,
}
use srm.Service.Lifecycle.Access.{
  require_org, client, get_or_create_group, group_name_by_id, agent_download, DeploySpec,
  apply_profile_defaults, at_least_one, with_labels, org_url,
}

abbrev pub dry_run : Op Bool
dry_run = ask (λ c. c.dry_run)

-- fmt.Sprintf("%s-%d", prefix, i)
abbrev pub numbered : Text → ℕ → Text
numbered prefix i = prefix ++ b'-' ∷ decimal i

unfoldable pub numbered_from : Text → ℕ → ℕ → List Text
numbered_from prefix i zero = []
numbered_from prefix i (suc k) = numbered prefix i ∷ numbered_from prefix (suc i) k

abbrev or_zero : Option ℕ → ℕ
or_zero none = 0
or_zero (some id) = id

abbrev pub or_empty : Option Text → Text
or_empty none = []
or_empty (some version) = version

unfoldable pub persistent_record : Text → Text → ℕ → Download → RunnerRecord
persistent_record org name id dl = record {
  kind = persistent;
  org = org;
  name = name;
  github_runner_id = id;
  agent_version = or_empty (version_from_url dl.url);
  previous_version = [];
  template_version = current_drop_in_version;
  configured_at = [];
  last_upgrade_at = [];
}

-- The id is read and the manifest is annotated; neither can fail the operation.
unfoldable pub annotate : Text → Text → Download → Op (Unit {0})
annotate org name dl = do
  id ← query (λ w t. w.agent_id t org name)
  record_created (persistent_record org name (or_zero id) dl)

-- The names that were created, and the failure of the first that was not
abbrev pub Created : Type 0
Created = List Text × Option Failure

abbrev runner_spec : Text → DeploySpec → Text → RunnerSpec
runner_spec org spec name = record {
  name = name;
  org = org;
  url = org_url org;
  labels = spec.labels;
  group = spec.group;
}

-- The loop from number `i`, with `k` runners left
unfoldable pub create_from : Text → DeploySpec → Download → ℕ → ℕ → List Text → Op Created
create_from org spec dl zero i names = pure (names, none)
create_from org spec dl (suc k) i names = do
  let name = numbered spec.name_prefix i
  done ← call (Call.create_runner (runner_spec org spec name) dl)
  if done
      then (do annotate org name dl; create_from org spec dl k (suc i) (names ++ name ∷ []))
      else pure (names, some (not_created name host_error))

-- The group of the spec, by its id or by the org's default
unfoldable pub with_group_of : Text → DeploySpec → ℤ → Op DeploySpec
with_group_of org spec id = do
  dry ← dry_run
  if text_eq spec.group [] && not dry
      then (do group ← group_name_by_id org id; pure (record spec { group = group }))
      else pure spec

-- One registration token covers all runners.
unfoldable pub prepare_host : Text → Op (Unit {0})
prepare_host org = do
  client org
  token ← act (mint_token org) (λ w t. w.token_reply t org)
  or_raise token no_token
  based ← call (ensure_base org)
  guard based no_base

unfoldable pub resolved_spec : DeploySpec → Op DeploySpec
resolved_spec given = do
  seeded ← apply_profile_defaults given.org given false
  by_id ←
      if ltb_ℤ (pos 0) seeded.group_id
      then with_group_of given.org seeded seeded.group_id
      else pure seeded
  labelled ← ask (with_labels given.org by_id)
  default_id ← ask (λ c. default_group_id c given.org)
  with_group_of given.org labelled default_id

unfoldable pub create_runners : DeploySpec → Op Created
create_runners given = do
  require_org given.org
  spec ← resolved_spec given
  if text_eq spec.group [] then pure tt else (do get_or_create_group given.org spec.group; pure tt)
  dl ← agent_download given.org
  dry ← dry_run
  let count = at_least_one spec.count
  if dry
      then pure (numbered_from spec.name_prefix 1 count, none)
      else (do prepare_host given.org; create_from given.org spec dl count 1 [])

-- GitHub's answer to the deletion, after that of the host
unfoldable pub conclude_destroy : Bool → Reply → Op (Unit {0})
conclude_destroy removed deleted = guard removed host_error
conclude_destroy removed gone = raise api_error
conclude_destroy removed (refused e) = raise api_error

abbrev pub ask_deletion : Text → ℤ → Op Reply
ask_deletion org id = act (delete_runner org id) (λ w t. w.delete_reply t org id)

unfoldable pub deregister : Text → Bool → Option ℕ → Op (Unit {0})
deregister org removed none = do guard removed host_error; raise no_id
deregister org removed (some id) = do
  client org
  reply ← ask_deletion org (pos id)
  conclude_destroy removed reply

unfoldable pub destroy_runner : Text → Text → Op (Unit {0})
destroy_runner org name = do
  require_org org
  id ← query (λ w t. w.agent_id t org name)
  dry ← dry_run
  if dry then pure tt else (do
    removed ← call (remove_runner org name)
    forget persistent org name
    deregister org removed id)

-- `fmt.Errorf("...: %w", err)`
unfoldable pub within : {A : Type 0} → (Failure → Failure) → Op A → Op A
within f m w t = let (r, t') = m w t in (elim r [ ok a ↦ ok a | err e ↦ err (f e) ], t')

unfoldable pub recreate_runner : Text → Text → List Text → ℤ → Op (Unit {0})
recreate_runner org name labels group_id = do
  require_org org
  group ← group_name_by_id org group_id
  within (not_destroyed name) (destroy_runner org name)
  dry ← dry_run
  if dry then pure tt else (do
    dl ← agent_download org
    prepare_host org
    let spec : RunnerSpec = record {
      name = name;
      org = org;
      url = org_url org;
      labels = labels;
      group = group;
    }
    done ← call (Call.create_runner spec dl)
    guard done (not_created name host_error)
    annotate org name dl)
