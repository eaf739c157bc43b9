-- ===== src/Service/Uninstall/Gate.antt =====
-- The drain gate of internal/service/uninstall.go.
use srm.Prelude.{
  ℕ, suc, Bool, true, false, ◌&&◌, not, Option, none, some, List, [], ◌∷◌, any_of, if◌then◌else◌,
  Text, text_eq,
}
use srm.Prelude.Int.{pos, eqb_ℤ}
use srm.Config.{org_names}
use srm.Service.Reconcile.Model.{Error, RunnerWithOrg}
use srm.Service.Reconcile.Github.{all_rows, list_errors, has_error}
use srm.Service.Uninstall.Model.{UninstallOpts, Site, DrainError, not_listed, busy, in_flight}

-- busy[p]
abbrev pub is_busy : Text → Text → RunnerWithOrg → Bool
is_busy org name row = row.runner.busy && (text_eq row.org org && text_eq row.runner.name name)

-- The drain gate on the runners: the first that cannot be confirmed idle
unfoldable pub busy_runner :
    List RunnerWithOrg → List (Text × Error) → List (Text × Text) → Option DrainError
busy_runner rows errs [] = none
busy_runner rows errs ((org, name) ∷ targets) =
    if has_error org errs
    then some (not_listed org name)
    else if any_of (is_busy org name) rows
    then some (busy org name)
    else busy_runner rows errs targets

-- and on the lanes: the first that has a registration on record
unfoldable pub busy_lane : Site → ℕ → List (Text × Text) → Option DrainError
busy_lane w t [] = none
busy_lane w t ((org, slot) ∷ lanes) =
    if not (eqb_ℤ (w.lifecycle.pending_jit t org slot) (pos 0))
    then some (in_flight org slot)
    else busy_lane w (suc t) lanes

abbrev pub is_empty : List (Text × Text) → Bool
is_empty [] = true
is_empty (x ∷ xs) = false

abbrev pub or_lane : Option DrainError → Option DrainError → Option DrainError
or_lane (some e) other = some e
or_lane none other = other

unfoldable pub drain_gate :
    Site → UninstallOpts → ℕ → List (Text × Text) → List (Text × Text) → Option DrainError
unfolding busy_runner busy_lane
drain_gate w opts t persistent lanes =
    if opts.force
    then none
    else or_lane
        (if not opts.keep_github && not (is_empty persistent)
          then busy_runner (all_rows w.world (org_names w.lifecycle.cfg))
              (list_errors w.world (org_names w.lifecycle.cfg)) persistent
          else none)
        (busy_lane w t lanes)
