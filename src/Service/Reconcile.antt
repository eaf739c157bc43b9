-- ===== src/Service/Reconcile.antt =====
-- Manager.Reconcile of internal/service/reconcile.go, in the order of the source: the GitHub list, the
-- units, the slot lanes, the runners with no unit here, the host's health, the repair.
pub mod Model
pub mod Github
pub mod Units
pub mod Ghosts
pub mod Repair
pub mod Safety
use srm.Prelude.{
  ℕ, zero, suc, ◌+◌, ◌≡◌, Bool, true, false, ◌&&◌, ◌||◌, not, Option, none, some, List, [], ◌∷◌,
  ◌++◌, map, if◌then◌else◌, ◌==◌, any_of, Text, codes, text_eq,
}
use srm.Prelude.Int.{ℤ, pos}
use srm.Prelude.Strings.{text_lt}
use srm.Prelude.Sort.{sort_slice}
use srm.Service.Reconcile.Model.{
  Error, error, Listing, listed, failed, Reply, deleted, gone, refused, RunnerWithOrg, Fix, no_fix,
  would_reap, reaped, RunnerState, DiskStat, CacheSize, Action, delete_runner, World, Pass, tick,
  perform, unmeasured,
}
use srm.Service.Reconcile.Github.{all_rows, list_errors}
use srm.Service.Reconcile.Units.{inspect_units, inspect_lanes}
use srm.Service.Reconcile.Ghosts.{github_only}
use srm.Service.Reconcile.Repair.{repair_all}

-- The order of the report: by org, then by name
abbrev pub row_less : RunnerState → RunnerState → Bool
row_less a b = if not (text_eq a.org b.org) then text_lt a.org b.org else text_lt a.name b.name

abbrev install_root : Text
install_root = codes "/opt/actions-runners"

abbrev cache_root : Text
cache_root = codes "/opt/srm-cache"

abbrev tool_cache_root : Text
tool_cache_root = codes "/opt/hostedtoolcache"

abbrev cache_size : World → Text → Text → CacheSize
cache_size w title path = record { label = title ++ path; bytes = w.dir_size path }

unfoldable pub cache_sizes : World → List CacheSize
cache_sizes w =
    cache_size w (codes "tool cache ") tool_cache_root
    ∷ (if w.per_org_users
        then map (λ org. cache_size w (codes "dep cache ") (cache_root ++ b'/' ∷ org)) w.org_names
        else cache_size w (codes "dep cache ") cache_root ∷ [])

pub record ReconcileReport : Type 0 where
  pub runners : List RunnerState
  pub disks : List DiskStat
  pub caches : List CacheSize
  pub list_errs : List (Text × Error)
  pub applied : Bool
  pub reaped_rows : List RunnerState
  pub slice_current : ℤ
  pub slice_max : ℤ

-- The host's units, or its lanes, could not be enumerated.
pub data ReconcileError : Type 0 where
  no_units no_ephemeral_units : ReconcileError

abbrev report : World → ReconcileReport
report w = record {
  runners = [];
  disks = [];
  caches = [];
  list_errs = list_errors w w.org_names;
  applied = false;
  reaped_rows = [];
  slice_current = pos 0;
  slice_max = pos 0;
}

-- The report with the host's health, before the repair
assess : World → List RunnerState → List RunnerState → ReconcileReport
assess w sts reaped_rows = record {
  runners = sort_slice row_less sts;
  disks = w.host_disk (install_root ∷ cache_root ∷ tool_cache_root ∷ []);
  caches = cache_sizes w;
  list_errs = list_errors w w.org_names;
  applied = false;
  reaped_rows = reaped_rows;
  slice_current = w.slice_current;
  slice_max = w.slice_max;
}

finish : World → Bool → Bool → ReconcileReport → Pass → ReconcileReport × Pass
finish w fix dry_run rep p =
    if fix
    then (let (sts, q) = repair_all w (not dry_run) rep.runners p in
        (record rep { applied = not dry_run; runners = sts }, q))
    else (rep, p)

abbrev pub Run : Type 0
Run = ReconcileReport × Option ReconcileError × Pass

-- The three loops, over what could be enumerated
lanes_pass : World → Bool → Bool → Text → Bool → List Text → Option (List Text) → Pass → Run
unfolding assess finish
lanes_pass w fix reap org_filter dry_run units lanes p =
    let rows = all_rows w w.org_names in
    let (sts, p') = inspect_units w org_filter rows units p in
    elim lanes [
      | none ↦ (record (report w) { runners = sts }, some no_ephemeral_units, p')
      | some eph ↦
          let (sts', p'') = inspect_lanes w org_filter eph p' in
          let (sts'', reaped_rows, q) = github_only w reap org_filter dry_run units rows p'' in
          let (rep, q') = finish w fix dry_run (assess w (sts ++ (sts' ++ sts'')) reaped_rows) q in
          (rep, none, q')
    ]

units_pass : World → Bool → Bool → Text → Bool → Option (List Text) → Pass → Run
unfolding lanes_pass
units_pass w fix reap org_filter dry_run none p = (report w, some no_units, p)
units_pass w fix reap org_filter dry_run (some units) p =
    lanes_pass w fix reap org_filter dry_run units w.list_ephemeral_units p

unfoldable pub reconcile : World → Bool → Bool → Text → Bool → Pass → Run
unfolding units_pass
reconcile w fix reap org_filter dry_run p = units_pass w fix reap org_filter dry_run w.list_units p

unfoldable pub reconcile_fix : World → Text → Bool → Pass → Run
unfolding reconcile
reconcile_fix w org_filter dry_run p = reconcile w true false org_filter dry_run p

unfoldable pub reap_ephemeral : World → Text → Bool → Pass → Run
unfolding reconcile
reap_ephemeral w org_filter dry_run p = reconcile w false true org_filter dry_run p
