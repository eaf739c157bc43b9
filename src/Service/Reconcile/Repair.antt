-- ===== src/Service/Reconcile/Repair.antt =====
-- repairRunner of internal/service/reconcile.go, and the loop over the report.
use srm.Prelude.{Bool, Option, none, some, List, [], ◌∷◌, if◌then◌else◌}
use srm.Service.Drift.{
  DriftClass, orphan_unit, stale_drop_in, stuck, drop_in_newer, ephemeral_newer,
}
use srm.Service.Reconcile.Model.{
  Error, Fix, skipped_busy, would_remove, removed, would_refresh, refreshed, skipped_newer,
  RunnerState, remove_runner, refresh_unit, World, Pass, perform,
}

-- st.FixErr = err, or st.Fix = done
abbrev outcome : RunnerState → Fix → Option Error → RunnerState
outcome st done (some e) = record st { fix_err = some e }
outcome st done none = record st { fix = done }

unfoldable pub repair_orphan : World → Bool → RunnerState → Pass → RunnerState × Pass
repair_orphan w apply st p =
    if st.busy
    then (record st { fix = skipped_busy }, p)
    else if apply
    then (
      outcome st removed (w.remove_reply p.now st.org st.name),
      perform (remove_runner st.org st.name) p,
    )
    else (record st { fix = would_remove }, p)

unfoldable pub repair_refresh : World → Bool → RunnerState → Pass → RunnerState × Pass
repair_refresh w apply st p =
    if st.busy
    then (record st { fix = skipped_busy }, p)
    else if apply
    then (
      outcome st refreshed (w.refresh_reply p.now st.org st.name),
      perform (refresh_unit st.org st.name) p,
    )
    else (record st { fix = would_refresh }, p)

unfoldable pub by_class : DriftClass → World → Bool → RunnerState → Pass → RunnerState × Pass
by_class orphan_unit w apply st p = repair_orphan w apply st p
by_class stale_drop_in w apply st p = repair_refresh w apply st p
by_class stuck w apply st p = repair_refresh w apply st p
by_class drop_in_newer w apply st p = (record st { fix = skipped_newer }, p)
by_class ephemeral_newer w apply st p = (record st { fix = skipped_newer }, p)
by_class _ w apply st p = (st, p)

unfoldable pub repair_runner : World → Bool → RunnerState → Pass → RunnerState × Pass
repair_runner w apply st p = by_class st.class w apply st p

unfoldable pub repair_all : World → Bool → List RunnerState → Pass → List RunnerState × Pass
repair_all w apply [] p = ([], p)
repair_all w apply (st ∷ sts) p =
    let (st', p') = repair_runner w apply st p in
    let (sts', p'') = repair_all w apply sts p' in (st' ∷ sts', p'')
