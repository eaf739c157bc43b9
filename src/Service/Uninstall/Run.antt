-- ===== src/Service/Uninstall/Run.antt =====
-- Uninstall of internal/service/uninstall.go.
use srm.Prelude.{Option, none, some, List, [], if◌then◌else◌, Text}
use srm.Service.Lifecycle.Model.{Result, ok, err, Trail}
use srm.Service.Uninstall.Model.{
  UninstallOpts, TeardownError, UninstallReport, Site, DrainError, Outcome, not_enumerated, planned,
  not_drained, Host,
}
use srm.Service.Uninstall.Plan.{plan}
use srm.Service.Uninstall.Gate.{drain_gate}
use srm.Service.Uninstall.Teardown.{add_errors, tear_down, drop_base}

abbrev pub torn :
    Site
    → UninstallOpts
    → UninstallReport
    → Result (List TeardownError) × Trail
    → Host
    → Outcome × Host
torn w opts rep (ok errs, t) h = drop_base w opts (add_errors errs rep) (record h { trail = t })
torn w opts rep (err e, t) h = drop_base w opts rep (record h { trail = t })

abbrev pub apply_plan :
    Site → UninstallOpts → UninstallReport → Host → Option DrainError → Outcome × Host
apply_plan w opts rep h (some e) = (not_drained e rep, h)
apply_plan w opts rep h none =
    torn w opts rep (tear_down opts.keep_github rep.persistent rep.ephemeral w.lifecycle h.trail) h

abbrev pub empty_report : UninstallReport
empty_report = record {
  persistent = [];
  ephemeral = [];
  users = [];
  paths = [];
  skipped = [];
  errors = [];
  backup_path = none;
  config_dir = none;
  binary = none;
}

unfoldable pub uninstall_units :
    Site → UninstallOpts → Host → Option (List Text) → Option (List Text) → Outcome × Host
unfolding plan drain_gate tear_down drop_base
uninstall_units w opts h none lanes = (not_enumerated empty_report, h)
uninstall_units w opts h (some units) none = (not_enumerated empty_report, h)
uninstall_units w opts h (some units) (some lanes) =
    let rep = plan w opts units lanes in
    if w.lifecycle.cfg.dry_run
    then (planned rep, h)
    else apply_plan w opts rep h (drain_gate w opts h.trail.now rep.persistent rep.ephemeral)

unfoldable pub uninstall : Site → UninstallOpts → Host → Outcome × Host
unfolding uninstall_units
uninstall w opts h = uninstall_units w opts h w.list_units w.list_ephemeral_units
