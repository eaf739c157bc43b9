-- ===== src/Runner/Job.antt =====
-- RunJob of internal/runner/orchestrator.go with reclaimPath and ephemeralJobEnv: one job on the slot's
-- tree. The kernel, the disk and the job are the record Machine; startRootlessDocker is an answer of it.
pub mod Clean
use srm.Prelude.{
  Bool, true, false, ◌&&◌, ◌||◌, not, Option, none, some, List, [], ◌∷◌, ◌++◌, keep, any_of,
  if◌then◌else◌, Text, codes, text_eq,
}
use srm.Runner.Units.Render.{Options}

pub data JobError : Type 0 where
  not_root not_owned no_user root_user no_docker : JobError
  not_reset : Text → JobError
  exit_error : JobError

-- os.Lstat tells whether the path is there, or fails in another way.
pub data Lstat : Type 0 where
  lstat_ok lstat_failed : Lstat

pub record Machine : Type 0 where
  pub is_root : Bool
  pub remove_all : Text → Bool
  pub rm : Text → Bool
  pub lstat : Text → Lstat
  pub mkdir_owned : Text → Bool
  pub lookup : Text → Option (Text × Text)
  pub start_docker : Option (List Text)
  pub run : List Text → Bool

pub data JobEvent : Type 0 where
  docker_started docker_stopped : JobEvent
  -- The command, and what earlier jobs left in the slot's tree
  started : List Text → List Text → JobEvent

-- What earlier jobs left in the tree, and what was done, the last first
pub record Tree : Type 0 where
  pub stale : List Text
  pub log : List JobEvent

abbrev pub drop_name : Text → List Text → List Text
drop_name sub = keep (λ s. not (text_eq s sub))

abbrev pub has_name : Text → List Text → Bool
has_name sub = any_of (λ s. text_eq s sub)

abbrev is_gone : Lstat → Text → List Text → Bool
is_gone lstat_ok sub stale = not (has_name sub stale)
is_gone lstat_failed sub stale = false

-- reclaimPath of one name in the tree, and whether it returns nil
unfoldable pub reclaim_path : Machine → Text → List Text → List Text × Bool
reclaim_path m sub stale =
    if m.remove_all sub
    then (drop_name sub stale, true)
    else let left = if m.rm sub then drop_name sub stale else stale in
      (left, is_gone (m.lstat sub) sub left)

unfoldable pub reset_dirs : Options → List Text
reset_dirs opts =
    (codes "_work"
      ∷ codes "_diag"
      ∷ codes "_home"
      ∷ codes ".runner"
      ∷ codes ".credentials"
      ∷ codes ".credentials_rsaparams"
      ∷ [])
    ++ (if opts.din_d then codes ".docker-data" ∷ [] else [])

abbrev next_reset :
    (List Text → List Text × Option Text) → Text → List Text × Bool → List Text × Option Text
next_reset rest sub (left, true) = rest left
next_reset rest sub (left, false) = (left, some sub)

-- The loop over resetDirs: the first name that cannot be reset ends it.
unfoldable pub reset_all : Machine → List Text → List Text → List Text × Option Text
unfolding reclaim_path
reset_all m [] stale = (stale, none)
reset_all m (sub ∷ subs) stale = next_reset (reset_all m subs) sub (reclaim_path m sub stale)

-- ephemeralJobEnv
unfoldable pub ephemeral_job_env : Text → Text → List Text → List Text
ephemeral_job_env user home extra =
    codes "RUNNER_ALLOW_RUNASROOT=0"
    ∷ (codes "HOME=" ++ home)
    ∷ (codes "USER=" ++ user)
    ∷ (codes "LOGNAME=" ++ user)
    ∷ extra

-- The arguments of setpriv
unfoldable pub job_argv : Options → Text → Text → Text → List Text → Text → List Text
unfolding ephemeral_job_env
job_argv opts dir uid gid env jit_config =
    (codes "--reuid"
      ∷ uid
      ∷ codes "--regid"
      ∷ gid
      ∷ codes "--init-groups"
      ∷ codes "--"
      ∷ codes "env"
      ∷ [])
    ++ (ephemeral_job_env opts.user (dir ++ codes "/_home") env
        ++ codes "./run.sh" ∷ codes "--jitconfig" ∷ jit_config ∷ [])

abbrev pub JobOutcome : Type 0
JobOutcome = Option JobError × Tree

abbrev exit_of : Bool → Option JobError
exit_of true = none
exit_of false = some exit_error

abbrev start_job : Machine → List Text → Tree → JobOutcome
start_job m argv t = (exit_of (m.run argv), record t { log = started argv t.stale ∷ t.log })

-- `defer u.stopRootlessDocker(daemon)`
abbrev pub stop_docker : JobOutcome → JobOutcome
stop_docker (e, t) = (e, record t { log = docker_stopped ∷ t.log })

with_docker : Machine → Options → Text → Text → Text → Text → Tree → Option (List Text) → JobOutcome
unfolding job_argv
with_docker m opts dir uid gid jit_config t none = (some no_docker, t)
with_docker m opts dir uid gid jit_config t (some env) = stop_docker (
    start_job m (job_argv opts dir uid gid env jit_config)
      (record t { log = docker_started ∷ t.log }))

-- The user is known: it must not be root.
unfoldable pub run_as : Machine → Options → Text → Text → Tree → Option (Text × Text) → JobOutcome
unfolding with_docker
run_as m opts dir jit_config t none = (some no_user, t)
run_as m opts dir jit_config t (some (uid, gid)) =
    if text_eq uid (codes "0") || text_eq gid (codes "0")
    then (some root_user, t)
    else if opts.din_d
    then with_docker m opts dir uid gid jit_config t m.start_docker
    else start_job m (job_argv opts dir uid gid [] jit_config) t

after_reset : Machine → Options → Text → Text → Tree → List Text × Option Text → JobOutcome
unfolding run_as
after_reset m opts dir jit_config t (left, some sub) =
    (some (not_reset sub), record t { stale = left })
after_reset m opts dir jit_config t (left, none) =
    let t' = record t { stale = left } in
    if m.mkdir_owned (codes "_work") && m.mkdir_owned (codes "_home")
    then run_as m opts dir jit_config t' (m.lookup opts.user)
    else (some not_owned, t')

-- RunJob in the tree `dir` of a slot
unfoldable pub run_job : Machine → Options → Text → Text → Tree → JobOutcome
unfolding after_reset reset_dirs reset_all
run_job m opts dir jit_config t =
    if not m.is_root
    then (some not_root, t)
    else after_reset m opts dir jit_config t (reset_all m (reset_dirs opts) t.stale)
