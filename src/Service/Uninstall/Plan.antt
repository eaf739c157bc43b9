-- ===== src/Service/Uninstall/Plan.antt =====
-- What Uninstall of internal/service/uninstall.go would remove.
use srm.Prelude.{
  Bool, ◌&&◌, ◌||◌, not, Option, none, some, List, [], ◌∷◌, ◌++◌, map, if◌then◌else◌, Text, text_eq,
}
use srm.Config.{Config, org_names}
use srm.Service.UnitNames.{orgs_by_len, parse_unit_name, parse_ephemeral_unit_name}
use srm.Service.Uninstall.Model.{
  UninstallOpts, Skipped, foreign_unit, foreign_lane, shared_tool_cache, UninstallReport, Site,
}
use srm.Service.Uninstall.Targets.{base_targets}

-- inScope
abbrev pub in_scope : Text → Text → Bool
in_scope filter org = text_eq filter [] || text_eq org filter

-- A unit is a target, or is out of scope, or is no unit of srm's.
abbrev pub place :
    Text
    → Text
    → Option (Text × Text)
    → List (Text × Text) × List Text
    → List (Text × Text) × List Text
place filter svc none (targets, skipped) = (targets, svc ∷ skipped)
place filter svc (some (org, name)) (targets, skipped) =
    (if in_scope filter org then (org, name) ∷ targets else targets, skipped)

-- The loop over the units
unfoldable pub targets_of :
    (Text → Option (Text × Text)) → Text → List Text → List (Text × Text) × List Text
targets_of parse filter [] = ([], [])
targets_of parse filter (svc ∷ units) = place filter svc (parse svc) (targets_of parse filter units)

abbrev shared_cache : UninstallOpts → Config → List Skipped
shared_cache opts c =
    if text_eq opts.org [] && not c.per_org_users then shared_tool_cache ∷ [] else []

abbrev pub when_some : Bool → Option Text → Option Text
when_some b o = if b then o else none

-- What would be removed
unfoldable pub plan : Site → UninstallOpts → List Text → List Text → UninstallReport
unfolding targets_of base_targets
plan w opts units lanes =
    let c = w.lifecycle.cfg in
    let orgs = orgs_by_len (org_names c) in
    let full = text_eq opts.org [] in
    let (persistent, foreign) = targets_of (λ svc. parse_unit_name svc orgs) opts.org units in
    let (slots, foreign') = targets_of (λ svc. parse_ephemeral_unit_name svc orgs) opts.org lanes in
    let base = base_targets c opts.org in
    record {
      persistent = persistent;
      ephemeral = slots;
      users = base.users;
      paths = base.paths;
      skipped = map foreign_unit foreign ++ (map foreign_lane foreign' ++ shared_cache opts c);
      errors = [];
      backup_path = none;
      config_dir =
          when_some
            (opts.purge && (not opts.keep_config && (full && not (text_eq w.config_path []))))
            (some w.config_dir);
      binary = when_some (not opts.keep_binary && full) w.executable;
    }
