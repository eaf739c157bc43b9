-- ===== src/Runner/Job/Clean.antt =====
-- What stands when a job is started.
use srm.Prelude.{
  ◌≡◌, ◌≢◌, refl, inl, inr, Bool, true, false, ◌&&◌, Option, none, some, List, [], ◌∷◌, ◌++◌, ◌⊎◌,
  if◌then◌else◌, keep, any_of, Bool-cases, if_both, All, Text, codes, text_eq, text_eq_iff, arith,
}
use srm.Runner.Units.Render.{Options}
use srm.Runner.Job.{
  Machine, JobEvent, docker_started, docker_stopped, started, JobOutcome, drop_name, has_name,
  reclaim_path, reset_dirs, reset_all, job_argv, next_reset, with_docker, run_as, after_reset,
  run_job, ephemeral_job_env,
}

has_name-drop_name : (sub : Text) (stale : List Text) → has_name sub (drop_name sub stale) ≡ false
unfolding keep any_of
has_name-drop_name sub [] = refl
has_name-drop_name sub (s ∷ stale) = ground (arith, has_name-drop_name sub stale)

-- Dropping a name brings no other back.
has_name-drop_other :
    (sub other : Text) (stale : List Text)
    → has_name sub stale ≡ false
    → has_name sub (drop_name other stale) ≡ false
unfolding keep any_of
has_name-drop_other sub other [] h = refl
has_name-drop_other sub other (s ∷ stale) h = ground (arith, has_name-drop_other sub other stale)

reclaim_path-done :
    (m : Machine) (sub : Text) (stale : List Text)
    → (reclaim_path m sub stale).1 ≡ true
    → has_name sub (reclaim_path m sub stale).0 ≡ false
unfolding reclaim_path
reclaim_path-done m sub stale h = ground (arith, has_name-drop_name sub stale)

reclaim_path-keeps :
    (m : Machine) (sub other : Text) (stale : List Text)
    → has_name sub stale ≡ false
    → has_name sub (reclaim_path m other stale).0 ≡ false
unfolding reclaim_path
reclaim_path-keeps m sub other stale h = ground (arith, has_name-drop_other sub other stale)

-- Whatever was reset before stays so.
reset_all-keeps :
    (m : Machine) (sub : Text) (subs stale : List Text)
    → has_name sub stale ≡ false
    → has_name sub (reset_all m subs stale).0 ≡ false
unfolding reset_all
reset_all-keeps m sub [] stale h = h
reset_all-keeps m sub (other ∷ subs) stale h =
    next (reclaim_path m other stale) (reclaim_path-keeps m sub other stale h)
      (reset_all-keeps m sub subs (reclaim_path m other stale).0)
  where
    next :
        (o : List Text × Bool)
        → has_name sub o.0 ≡ false
        → (has_name sub o.0 ≡ false → has_name sub (reset_all m subs o.0).0 ≡ false)
        → has_name sub (next_reset (reset_all m subs) other o).0 ≡ false
    next (left, true) k ih = ih k
    next (left, false) k ih = k

abbrev pub AreReset : List Text → List Text → Type 0
AreReset subs stale = All (λ sub. has_name sub stale ≡ false) subs

-- A loop that comes to its end has reset every name.
reset_all-AreReset :
    (m : Machine) (subs stale : List Text)
    → (reset_all m subs stale).1 ≡ none
    → AreReset subs (reset_all m subs stale).0
unfolding reset_all
reset_all-AreReset m [] stale h = tt
reset_all-AreReset m (sub ∷ subs) stale h =
    next (reclaim_path m sub stale) (reclaim_path-done m sub stale)
      (reset_all-AreReset m subs (reclaim_path m sub stale).0) h
  where
    next :
        (o : List Text × Bool)
        → (o.1 ≡ true → has_name sub o.0 ≡ false)
        → ((reset_all m subs o.0).1 ≡ none → AreReset subs (reset_all m subs o.0).0)
        → (next_reset (reset_all m subs) sub o).1 ≡ none
        → AreReset (sub ∷ subs) (next_reset (reset_all m subs) sub o).0
    next (left, true) k ih e = (reset_all-keeps m sub subs left (k refl), ih e)
    next (left, false) k ih e = absurd (cc e)

abbrev pub zero_id : Text
zero_id = codes "0"

-- What setpriv is called with: the user and the group dropped to, then the job's command in an
-- environment of its own with the slot's home
abbrev pub dropped_to : Text → Text → Text → Text → List Text → Text → List Text
dropped_to user home uid gid env jit_config =
    codes "--reuid"
    ∷ uid
    ∷ codes "--regid"
    ∷ gid
    ∷ codes "--init-groups"
    ∷ codes "--"
    ∷ codes "env"
    ∷ codes "RUNNER_ALLOW_RUNASROOT=0"
    ∷ (codes "HOME=" ++ home)
    ∷ (codes "USER=" ++ user)
    ∷ (codes "LOGNAME=" ++ user)
    ∷ (env ++ codes "./run.sh" ∷ codes "--jitconfig" ∷ jit_config ∷ [])

-- The names in a slot's tree that no job may leave to the next
abbrev pub job_leftovers : List Text
job_leftovers =
    codes "_work"
    ∷ codes "_diag"
    ∷ codes "_home"
    ∷ codes ".runner"
    ∷ codes ".credentials"
    ∷ codes ".credentials_rsaparams"
    ∷ []

-- The command drops to the ids of the slot's user, neither of them root's, and nothing of an earlier job
-- is left.
pub record IsClean (m : Machine) (opts : Options) (dir jit_config : Text) (argv stale : List Text)
    : Type 0 where
  pub uid : Text
  pub gid : Text
  pub env : List Text
  pub is_users : m.lookup opts.user ≡ some (uid, gid)
  pub is_dropped : argv ≡ dropped_to opts.user (dir ++ codes "/_home") uid gid env jit_config
  pub uid_ne_zero : uid ≢ zero_id
  pub gid_ne_zero : gid ≢ zero_id
  pub is_reset : AreReset job_leftovers stale
  pub docker_is_reset : (opts.din_d ≡ false) ⊎ (has_name (codes ".docker-data") stale ≡ false)

-- No job is started, or one, clean; a docker daemon is started before it and stopped behind it.
abbrev pub IsCleanRun : Machine → Options → Text → Text → List JobEvent → Type 0
IsCleanRun m opts dir jit_config [] = Unit {0}
IsCleanRun m opts dir jit_config (started argv stale ∷ []) =
    IsClean m opts dir jit_config argv stale
IsCleanRun m opts dir jit_config (docker_stopped ∷ started argv stale ∷ docker_started ∷ []) =
    IsClean m opts dir jit_config argv stale
IsCleanRun m opts dir jit_config log = ⊥

ne_of_text_eq : (s t : Text) → text_eq s t ≡ false → s ≢ t
ne_of_text_eq s t h p = cc (h, (text_eq_iff s t).1 p)

module _ (m : Machine) (opts : Options) (dir jit_config : Text) where
  clean :
      (uid gid : Text) (stale : List Text) (env : List Text)
      → AreReset (reset_dirs opts) stale
      → text_eq uid zero_id ≡ false
      → text_eq gid zero_id ≡ false
      → m.lookup opts.user ≡ some (uid, gid)
      → IsClean m opts dir jit_config (job_argv opts dir uid gid env jit_config) stale
  unfolding job_argv ephemeral_job_env reset_dirs
  clean uid gid stale env h u g l = record {
    uid = uid;
    gid = gid;
    env = env;
    is_users = l;
    is_dropped = refl;
    uid_ne_zero = ne_of_text_eq uid zero_id u;
    gid_ne_zero = ne_of_text_eq gid zero_id g;
    is_reset = (h.0, (h.1.0, (h.1.1.0, (h.1.1.1.0, (h.1.1.1.1.0, (h.1.1.1.1.1.0, tt))))));
    docker_is_reset = docker opts.din_d h.1.1.1.1.1.1;
  }
    where
      docker :
          (b : Bool)
          → AreReset (if b then codes ".docker-data" ∷ [] else []) stale
          → (b ≡ false) ⊎ (has_name (codes ".docker-data") stale ≡ false)
      docker true k = inr k.0
      docker false k = inl refl

  with_docker-IsCleanRun :
      (uid gid : Text) (stale : List Text) (docker : Option (List Text))
      → AreReset (reset_dirs opts) stale
      → text_eq uid zero_id ≡ false
      → text_eq gid zero_id ≡ false
      → m.lookup opts.user ≡ some (uid, gid)
      → IsCleanRun m opts dir jit_config
          (with_docker m opts dir uid gid jit_config
            (record { stale = stale; log = [] })
            docker).1.log
  unfolding with_docker
  with_docker-IsCleanRun uid gid stale none h u g l = tt
  with_docker-IsCleanRun uid gid stale (some env) h u g l = clean uid gid stale env h u g l

  run_as-IsCleanRun :
      (stale : List Text) (usr : Option (Text × Text))
      → AreReset (reset_dirs opts) stale
      → m.lookup opts.user ≡ usr
      → IsCleanRun m opts dir jit_config
          (run_as m opts dir jit_config (record { stale = stale; log = [] }) usr).1.log
  unfolding run_as
  run_as-IsCleanRun stale none h l = tt
  run_as-IsCleanRun stale (some (uid, gid)) h l = elim (Bool-cases (text_eq uid zero_id)) [
    | inl e ↦ rw e tt
    | inr u ↦ elim (Bool-cases (text_eq gid zero_id)) [
      | inl e ↦ rw u (rw e tt)
      | inr g ↦ rw u (
          rw g (
            if_both (λ (o : JobOutcome). IsCleanRun m opts dir jit_config o.1.log) opts.din_d
              (with_docker-IsCleanRun uid gid stale m.start_docker h u g l)
              (clean uid gid stale [] h u g l)))
    ]
  ]

  after_reset-IsCleanRun :
      (stale : List Text) (o : List Text × Option Text)
      → (o.1 ≡ none → AreReset (reset_dirs opts) o.0)
      → IsCleanRun m opts dir jit_config
          (after_reset m opts dir jit_config (record { stale = stale; log = [] }) o).1.log
  unfolding after_reset
  after_reset-IsCleanRun stale (left, some sub) h = tt
  after_reset-IsCleanRun stale (left, none) h =
      elim (Bool-cases (m.mkdir_owned (codes "_work") && m.mkdir_owned (codes "_home"))) [
        | inl e ↦ rw e (run_as-IsCleanRun left (m.lookup opts.user) (h refl) refl)
        | inr e ↦ rw e tt
      ]

  -- Whatever earlier jobs left and whichever calls fail, at most one job is started: by setpriv with the
  -- user and the group of the slot's user, neither of them root's, in an environment whose home is the
  -- slot's _home; when it starts, the work, diagnosis and home directories and the agent's three
  -- credential files of earlier jobs are gone, and so is docker's data if the slot has docker; and a docker
  -- daemon that was started for it is stopped behind it.
  pub run_job-IsCleanRun :
      (stale : List Text)
      → IsCleanRun m opts dir jit_config
          (run_job m opts dir jit_config (record { stale = stale; log = [] })).1.log
  unfolding run_job
  run_job-IsCleanRun stale = elim (Bool-cases m.is_root) [
    | inl e ↦ simp e (
        after_reset-IsCleanRun stale (reset_all m (reset_dirs opts) stale)
          (reset_all-AreReset m (reset_dirs opts) stale))
    | inr e ↦ simp e tt
  ]
