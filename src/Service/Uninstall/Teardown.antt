-- ===== src/Service/Uninstall/Teardown.antt =====
-- The teardown of internal/service/uninstall.go: lanes, runners, the base, the config dir and the binary.
use srm.Prelude.{
  Bool, true, false, ◌||◌, not, Option, none, some, List, [], ◌∷◌, ◌++◌, if◌then◌else◌, Text, codes,
  text_eq,
}
use srm.Service.Lifecycle.Model.{
  remove_runner, remove_slot, Failure, host_error, Result, ok, err, Op, ◌>>=◌, pure, guard, call,
}
use srm.Service.Lifecycle.Runners.{destroy_runner}
use srm.Service.Lifecycle.Lanes.{destroy_ephemeral_slot}
use srm.Service.Uninstall.Model.{
  UninstallOpts, TeardownError, lane_left, runner_left, base_left, dir_left, binary_left,
  UninstallReport, Purge, purged_base, backed_up, removed_dir, removed_binary, Site, Outcome,
  not_backed_up, finished, Host,
}

-- An operation whose calls are put before those that were made
unfoldable pub apart : {A : Type 0} → Op A → Op (Result A)
apart m w t =
    let (r, t') = m w (record t { log = [] }) in (ok r, record t' { log = t'.log ++ t.log })

abbrev pub left : (Failure → TeardownError) → Result (Unit {0}) → List TeardownError
left f (ok u) = []
left f (err e) = f e ∷ []

unfoldable pub tear_lane : Bool → Text → Text → Op (Unit {0})
tear_lane true org slot = do removed ← call (remove_slot org slot); guard removed host_error
tear_lane false org slot = destroy_ephemeral_slot org slot

unfoldable pub tear_runner : Bool → Text → Text → Op (Unit {0})
tear_runner true org name = do removed ← call (remove_runner org name); guard removed host_error
tear_runner false org name = destroy_runner org name

-- A failure is noted, and the loop goes on.
unfoldable pub tear_all :
    (Text → Text → Op (Unit {0}))
    → (Text → Text → Failure → TeardownError)
    → List (Text × Text)
    → Op (List TeardownError)
unfolding apart
tear_all tear f [] = pure []
tear_all tear f ((org, name) ∷ targets) = do
  r ← apart (tear org name)
  errs ← tear_all tear f targets
  pure (left (f org name) r ++ errs)

-- The lanes first
unfoldable pub tear_down : Bool → List (Text × Text) → List (Text × Text) → Op (List TeardownError)
unfolding tear_all
tear_down keep_github persistent lanes = do
  lane_errs ← tear_all (tear_lane keep_github) lane_left lanes
  errs ← tear_all (tear_runner keep_github) runner_left persistent
  pure (lane_errs ++ errs)

abbrev pub add_errors : List TeardownError → UninstallReport → UninstallReport
add_errors errs rep = record rep { errors = rep.errors ++ errs }

abbrev pub errors_if : Bool → TeardownError → List TeardownError
errors_if true e = []
errors_if false e = e ∷ []

abbrev done : Purge → Host → Host
done x h = record h { purges = x ∷ h.purges }

-- The binary last
abbrev pub drop_binary : Site → UninstallReport → Host → Option Text → Outcome × Host
drop_binary w rep h none = (finished rep, h)
drop_binary w rep h (some exe) =
    if w.remove_binary
    then (finished rep, done (removed_binary exe) h)
    else (finished (add_errors (binary_left ∷ []) (record rep { binary = none })), h)

-- The config dir is removed when its backup is written, and only then.
abbrev pub drop_dir : Site → UninstallReport → Host → Option Text → Outcome × Host
drop_dir w rep h none = (not_backed_up rep, h)
drop_dir w rep h (some path) =
    let rep' = record rep { backup_path = some path } in
    let h' = done (backed_up path) h in
    if w.remove_dir
    then drop_binary w rep' (done removed_dir h') rep'.binary
    else drop_binary w (add_errors (dir_left ∷ []) (record rep' { config_dir = none })) h'
        rep'.binary

abbrev or_default_dir : Text → Text
or_default_dir dir = if text_eq dir [] then codes "/var/backups" else dir

unfoldable pub drop_config :
    Site → UninstallOpts → UninstallReport → Host → Option Text → Outcome × Host
drop_config w opts rep h none = drop_binary w rep h rep.binary
drop_config w opts rep h (some dir) = drop_dir w rep h (w.backup (or_default_dir opts.backup_dir))

-- The base, then the config dir and the binary
unfoldable pub drop_base : Site → UninstallOpts → UninstallReport → Host → Outcome × Host
unfolding drop_config
drop_base w opts rep h =
    let full = text_eq opts.org [] in
    let purged = w.purge_base rep.users rep.paths full in
    if full || (not (is_nil rep.users) || not (is_nil rep.paths))
    then drop_config w opts (add_errors (errors_if purged base_left) rep)
        (done (purged_base rep.users rep.paths full) h) rep.config_dir
    else drop_config w opts rep h rep.config_dir
  where
    is_nil : List Text → Bool
    is_nil [] = true
    is_nil (x ∷ xs) = false
