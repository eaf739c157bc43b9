-- ===== src/Service/Reconcile/Safety/Justified.antt =====
-- Every change of a whole reconcile pass is justified.
use srm.Prelude.{
  ℕ, ◌≡◌, refl, sym, ◌∙◌, false≢true, Bool, true, false, Option, none, some, List, [], ◌∷◌, ◌++◌,
  All, All-append, Text,
}
use srm.Service.Reconcile.Model.{
  RunnerWithOrg, RunnerState, Action, delete_runner, remove_runner, refresh_unit, World, Pass,
}
use srm.Prelude.Sort.{sort_slice, sort_slice-All}
use srm.Service.Reconcile.Github.{all_rows}
use srm.Service.Reconcile.Units.{inspect_units, inspect_lanes}
use srm.Service.Reconcile.Ghosts.{github_only}
use srm.Service.Reconcile.{row_less, finish, assess, lanes_pass, units_pass, reconcile}
use srm.Service.Reconcile.Safety.{IsExplained, IsJustified}
use srm.Service.Reconcile.Safety.Rows.{
  inspect_units-log, inspect_lanes-log, inspect_units-IsExplained, inspect_lanes-IsExplained,
}
use srm.Service.Reconcile.Safety.Deletions.{github_only-Justified, github_only-IsExplained}
use srm.Service.Reconcile.Safety.Repairs.{repair_all-Justified}

module _ (w : World) (reap : Bool) (org_filter : Text) (dry_run : Bool) where
  abbrev rows : List RunnerWithOrg
  rows = all_rows w w.org_names

  abbrev Justified : Bool → Action → Type 0
  Justified fix = IsJustified w fix reap org_filter dry_run rows

  finish-Justified :
      (fix : Bool) (sts reaped_rows : List RunnerState) (p : Pass)
      → All (IsExplained w org_filter rows) sts
      → All (Justified fix) p.log
      → All (Justified fix) (finish w fix dry_run (assess w sts reaped_rows) p).1.log
  unfolding finish assess
  finish-Justified false sts reaped_rows p ex h = h
  finish-Justified true sts reaped_rows p ex h =
      repair_all-Justified w reap org_filter dry_run rows (sort_slice row_less sts) p
        (sort_slice-All row_less (IsExplained w org_filter rows) sts ex) h

  lanes_pass-Justified :
      (fix : Bool) (units : List Text) (lanes : Option (List Text)) (p : Pass)
      → All (Justified fix) p.log
      → All (Justified fix) (lanes_pass w fix reap org_filter dry_run units lanes p).2.log
  unfolding lanes_pass
  lanes_pass-Justified fix units none p h = rw (inspect_units-log w org_filter rows units p) h
  lanes_pass-Justified fix units (some eph) p h =
      let (sts, p') = inspect_units w org_filter rows units p in
      let (sts', p'') = inspect_lanes w org_filter eph p' in
      let (sts'', reaped_rows, q) = github_only w reap org_filter dry_run units rows p'' in
      finish-Justified fix (sts ++ (sts' ++ sts'')) reaped_rows q
        (All-append (IsExplained w org_filter rows) sts (sts' ++ sts'')
          (inspect_units-IsExplained w org_filter rows units p)
          (All-append (IsExplained w org_filter rows) sts' sts''
            (inspect_lanes-IsExplained w org_filter rows eph p')
            (github_only-IsExplained w fix reap org_filter dry_run units rows rows p'')))
        (github_only-Justified w fix reap org_filter dry_run units rows rows p'' (λ r m. m)
          (rw (inspect_lanes-log w org_filter eph p', inspect_units-log w org_filter rows units p)
            h))

  units_pass-Justified :
      (fix : Bool) (listed : Option (List Text)) (p : Pass)
      → All (Justified fix) p.log
      → All (Justified fix) (units_pass w fix reap org_filter dry_run listed p).2.log
  unfolding units_pass
  units_pass-Justified fix none p h = h
  units_pass-Justified fix (some units) p h =
      lanes_pass-Justified fix units w.list_ephemeral_units p h

  -- Whatever the configuration, GitHub and the host answer, every change of a reconcile pass is
  -- justified. A registration is deleted only if reaping was asked for, the pass is no dry run, and it is a
  -- listed, offline, idle runner of the org asked for with a minted name whose slot this host was seen to
  -- own, with another registration recorded as in flight if the lane was active. A unit is removed only
  -- if repair was asked for, the pass is no dry run, it is of the org asked for, and the list of its org
  -- was read and no row that was listed is of that org and name. A unit is refreshed only if repair was
  -- asked for, the pass is no dry run, it is of the org asked for, and it is a listed, idle runner with a
  -- drop-in that was seen to be of no newer template.
  pub reconcile-IsJustified :
      (fix : Bool) (t : ℕ)
      → All
          (IsJustified w fix reap org_filter dry_run (all_rows w w.org_names))
          (reconcile w fix reap org_filter dry_run (record { now = t; log = [] })).2.log
  unfolding reconcile
  reconcile-IsJustified fix t =
      units_pass-Justified fix w.list_units (record { now = t; log = [] }) tt

  -- A dry run changes nothing.
  dry_run-log :
      (fix : Bool) (t : ℕ)
      → dry_run ≡ true
      → (reconcile w fix reap org_filter dry_run (record { now = t; log = [] })).2.log ≡ []
  dry_run-log fix t dry = none_justified _ (reconcile-IsJustified fix t)
    where
      none_justified : (log : List Action) → All (Justified fix) log → log ≡ []
      none_justified [] h = refl
      none_justified (delete_runner org id ∷ log) h = absurd (false≢true (sym h.0.not_dry ∙ dry))
      none_justified (remove_runner org name ∷ log) h = absurd (false≢true (sym h.0.not_dry ∙ dry))
      none_justified (refresh_unit org name ∷ log) h = absurd (false≢true (sym h.0.not_dry ∙ dry))
