-- ===== src/Service/Reconcile/Ghosts.antt =====
-- The loop of Reconcile over GitHub's runners, with maybeReapGhost and reapGhost.
use srm.Prelude.{
  ℕ, Bool, true, false, ◌&&◌, ◌||◌, not, Option, none, some, List, [], ◌∷◌, ◌++◌, if◌then◌else◌,
  ◌==◌, Text,
}
use srm.Core.{online}
use srm.Runner.Names.{is_ephemeral_runner_name, ephemeral_slot_from_name}
use srm.Service.Drift.{DriftClass, orphan_github, ephemeral_stuck, Detail, no_managed_unit, ghost}
use srm.Service.Reconcile.Model.{
  Error, Reply, deleted, gone, refused, RunnerWithOrg, no_fix, would_reap, reaped, RunnerState,
  delete_runner, World, Pass, tick, perform, unmeasured,
}
use srm.Service.Reconcile.Github.{filtered_out}
use srm.Service.Reconcile.Units.{seen}

-- A row of the report that no inspection stands behind
abbrev from_row : RunnerWithOrg → DriftClass → Detail → RunnerState
from_row row class detail = record {
  org = row.org;
  name = row.runner.name;
  class = class;
  detail = detail;
  local = false;
  active = false;
  user = [];
  on_github = true;
  online = false;
  busy = false;
  mem_peak = unmeasured;
  mem_max = unmeasured;
  mem_cur = unmeasured;
  oom_kills = unmeasured;
  fix = no_fix;
  fix_err = none;
}

after_delete : RunnerState → Reply → RunnerState
after_delete rs deleted = record rs { fix = reaped }
after_delete rs gone = record rs { fix = reaped }
after_delete rs (refused e) = record rs { fix_err = some e }

delete_ghost : World → RunnerWithOrg → RunnerState → Option Error → Pass → RunnerState × Pass
unfolding after_delete
delete_ghost w row rs (some e) p = (record rs { fix_err = some e }, p)
delete_ghost w row rs none p = (
  after_delete rs (w.delete_reply p.now row.org row.runner.id),
  perform (delete_runner row.org row.runner.id) p,
)

unfoldable pub reap_ghost : World → RunnerWithOrg → Bool → Pass → RunnerState × Pass
unfolding delete_ghost
reap_ghost w row dry_run p =
    let rs = from_row row ephemeral_stuck ghost in
    if dry_run
    then (record rs { fix = would_reap }, p)
    else delete_ghost w row rs (w.client_error row.org) p

-- The lane's own registration: the one in flight, or any while none is recorded yet
abbrev pub in_flight : ℕ → ℕ → Bool
in_flight pending id = pending == 0 || id == pending

unfoldable pub reap_slot :
    World → RunnerWithOrg → Bool → Option Text → Pass → List RunnerState × Pass
reap_slot w row dry_run none p = ([], p)
reap_slot w row dry_run (some slot) p =
    let insp = w.inspect_ephemeral p.now row.org slot in
    let p' = tick p in
    let pending = w.pending_jit p'.now row.org slot in
    if not insp.unit_exists
    then ([], p')
    else if insp.active && in_flight pending row.runner.id
    then ([], tick p')
    else (let p'' = if insp.active then tick p' else p' in
        let (rs, q) = reap_ghost w row dry_run p'' in (rs ∷ [], q))

unfoldable pub maybe_reap_ghost : World → RunnerWithOrg → Bool → Pass → List RunnerState × Pass
maybe_reap_ghost w row dry_run p =
    reap_slot w row dry_run (ephemeral_slot_from_name row.runner.name row.org) p

-- One round of the loop over GitHub's runners: what is reported, what is reaped.
unfoldable pub github_step :
    World
    → Bool
    → Text
    → Bool
    → List Text
    → RunnerWithOrg
    → Pass
    → List RunnerState × List RunnerState × Pass
github_step w reap org_filter dry_run units row p =
    if filtered_out org_filter row.org || seen w org_filter units row.org row.runner.name
    then ([], [], p)
    else if is_ephemeral_runner_name row.runner.name
    then (if reap && (not (online row.runner) && not row.runner.busy)
        then (let (rs, q) = maybe_reap_ghost w row dry_run p in ([], rs, q))
        else ([], [], p))
    else if online row.runner && not row.local
    then ([], [], p)
    else (
      record (from_row row orphan_github no_managed_unit) {
        online = online row.runner;
        busy = row.runner.busy;
        local = row.local;
      }
          ∷ [],
      [],
      p,
    )

unfoldable pub github_only :
    World
    → Bool
    → Text
    → Bool
    → List Text
    → List RunnerWithOrg
    → Pass
    → List RunnerState × List RunnerState × Pass
github_only w reap org_filter dry_run units [] p = ([], [], p)
github_only w reap org_filter dry_run units (row ∷ rows) p =
    let (st, rs, p') = github_step w reap org_filter dry_run units row p in
    let (sts, rss, p'') = github_only w reap org_filter dry_run units rows p' in
    (st ++ sts, rs ++ rss, p'')
