-- ===== src/Service/Reconcile/Github.antt =====
-- ListAllRunners (internal/service/manager.go), and the two maps that Reconcile makes of its result.
use srm.Prelude.{
  Bool, false, ◌&&◌, ◌||◌, not, Option, none, some, List, [], ◌∷◌, ◌++◌, map, if◌then◌else◌, any_of,
  Text, text_eq,
}
use srm.Core.{Runner}
use srm.Service.Reconcile.Model.{Error, Listing, listed, failed, RunnerWithOrg, World}

-- ListAllRunners: the rows of the orgs that could be listed, and the errors of the others
pub org_rows : World → Text → List Runner → List RunnerWithOrg
org_rows w org rs =
    map (λ r. record { org = org; runner = r; local = w.runner_is_local org r.name }) rs

rows_of : World → Text → Listing → List RunnerWithOrg
unfolding org_rows
rows_of w org (listed rs) = org_rows w org rs
rows_of w org (failed e) = []

unfoldable pub all_rows : World → List Text → List RunnerWithOrg
unfolding rows_of
all_rows w [] = []
all_rows w (org ∷ orgs) = rows_of w org (w.list_runners org) ++ all_rows w orgs

unfoldable pub errors_of : Text → Listing → List (Text × Error)
errors_of org (listed rs) = []
errors_of org (failed e) = (org, e) ∷ []

unfoldable pub list_errors : World → List Text → List (Text × Error)
unfolding errors_of
list_errors w [] = []
list_errors w (org ∷ orgs) = errors_of org (w.list_runners org) ++ list_errors w orgs

-- The org is outside the filter of the call; the empty filter takes every org.
abbrev pub filtered_out : Text → Text → Bool
filtered_out org_filter org = not (text_eq org_filter []) && not (text_eq org org_filter)

-- gh[key{org, name}]: a later row with the key overwrites an earlier one
unfoldable pub gh_row : Text → List RunnerWithOrg → Text → Text → Option RunnerWithOrg
gh_row org_filter [] org name = none
gh_row org_filter (row ∷ rows) org name = elim (gh_row org_filter rows org name) [
  | some later ↦ some later
  | none ↦
      if not (filtered_out org_filter row.org)
        && (text_eq row.org org && text_eq row.runner.name name)
      then some row
      else none
]

unfoldable pub has_error : Text → List (Text × Error) → Bool
has_error org [] = false
has_error org ((o, e) ∷ errs) = text_eq o org || has_error org errs

-- listedOK[org]
unfoldable pub listed_ok : World → Text → Bool
unfolding has_error
listed_ok w org =
    any_of (λ name. text_eq name org) w.org_names && not (has_error org (list_errors w w.org_names))
