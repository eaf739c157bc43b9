-- ===== src/Examples/Cycle.antt =====
-- Cycles of the lane 1 of the org acme, and the job that one of them runs.
use Prim.Native.Nat.{◌^◌}
use mathlib.Core.Path.{subst}
use srm.Prelude.{
  ◌<◌, arith, ◌≡◌, refl, true, false, inl, none, some, [], ◌∷◌, arith, Text, codes, text_eq, any_of,
  keep,
}
use srm.Prelude.Int.{pos, eqb_ℤ}
use srm.Config
use srm.Config.{Config}
use srm.Runner.Job.{Machine, lstat_ok, not_reset, run_job}
use srm.Runner.Job.Clean.{IsCleanRun, run_job-IsCleanRun}
use srm.Runner.Versions.{atoi}
use srm.Runner.Units.Marker.{trim_space}
use srm.Service.Reconcile.Model.{error, gone, refused}
use srm.Service.Cycle.{
  JitConfig, missing, Site, Lane, asked_delete, run_cycle, run_cycles, require_org,
}
use srm.Service.JitFile.{no_fault, pending_jit}
use srm.Service.Cycle.Tracked.{outstanding, IsTracked, IsCalm, run_cycles-IsTracked}
use srm.Service.Cycle.Pace.{IsPaced, run_cycle-IsPaced}
use srm.Service.Cycle.Jobs.{IsProper, MintsIds, run_cycle-IsProper}
use srm.Service.Cycle.Ghosts.{WasOnce, run_cycle_reaps, run_cycle_forgets}
use srm.Examples.Config.{config}
use srm.Examples.Units.{opts}

abbrev machine : Machine
machine = record {
  is_root = true;
  remove_all = λ sub. false;
  rm = λ sub. true;
  lstat = λ sub. lstat_ok;
  mkdir_owned = λ sub. true;
  lookup = λ user. some (codes "999", codes "998");
  start_docker = some (codes "DOCKER_HOST=unix:///run/docker.sock" ∷ []);
  run = λ argv. true;
}

abbrev slot_dir : Text
slot_dir = codes "/opt/runners/acme/.ephemeral/1"

run_job-IsCleanRun_example :
    IsCleanRun machine
      (record opts { din_d = true })
      slot_dir
      (codes "jit")
      (run_job machine
        (record opts { din_d = true })
        slot_dir
        (codes "jit")
        (record { stale = codes "_work" ∷ codes "_diag" ∷ []; log = [] })).1.log
run_job-IsCleanRun_example =
    run_job-IsCleanRun machine (record opts { din_d = true }) slot_dir (codes "jit")
      (codes "_work" ∷ codes "_diag" ∷ [])

abbrev acme : Text
acme = codes "acme"

abbrev one : Text
one = codes "1"

abbrev jit : JitConfig
jit = record { runner_id = 42; encoded = codes "jit" }

abbrev site : Site
site = record {
  cfg = config;
  has_client = λ t. true;
  mint_params = λ t. some (record { group_id = pos 0; labels = [] });
  nonce = λ t. codes "0badcafe";
  mint = λ t req. some jit;
  delete_reply = λ t id. gone;
  look = λ t id. missing;
  is_readable = λ t. true;
  is_removable = λ t. true;
  write_fault = λ t. no_fault;
  install_root = codes "/opt/runners";
  options = opts;
  machine = λ t. machine;
  stale = λ t. [];
  unix = λ t. pos t;
  error_text = λ e. codes "error";
}

-- GitHub refuses to delete, and nothing can be minted.
abbrev down : Site
down = record site { delete_reply = λ t id. refused (error 403); mint = λ t req. none }

-- An earlier cycle has left the registration 7.
abbrev lane : Lane
lane = record { now = 0; jit_file = some (codes "7"); log = [] }

configured : require_org config acme ≡ true
unfolding Config.org text_eq
configured = refl

pending : eqb_ℤ (pending_jit lane.jit_file) (pos 0) ≡ false
unfolding pending_jit atoi trim_space
pending = refl

site-IsCalm : IsCalm site
site-IsCalm = record {
  is_answered = λ t id. tt;
  is_written = λ t. refl;
  is_read = λ t. refl;
  is_id = λ t req. (omega arith, omega arith);
}

run_cycles-IsTracked_example : IsTracked (run_cycles (site ∷ site ∷ []) acme one lane)
run_cycles-IsTracked_example =
    run_cycles-IsTracked (site ∷ site ∷ []) acme one lane (site-IsCalm, (site-IsCalm, tt))
      (inl refl)

run_cycle-IsPaced_example : IsPaced lane (run_cycle down acme one lane)
run_cycle-IsPaced_example = run_cycle-IsPaced down acme one lane

fits : 42 < 2 ^ 63
fits = omega arith

site-MintsIds : MintsIds site
site-MintsIds t req j e =
    let same : jit ≡ j = ground (arith, e) in
    subst (λ (x : JitConfig). x.runner_id < 2 ^ 63) same fits

run_cycle-IsProper_example : IsProper (run_cycle site acme one lane).1.log
run_cycle-IsProper_example = run_cycle-IsProper site acme one lane site-MintsIds tt

run_cycle_reaps_example :
    WasOnce
      (asked_delete (pending_jit lane.jit_file) gone ∷ [])
      (run_cycle site acme one lane).1.log
run_cycle_reaps_example = run_cycle_reaps site acme one lane configured refl refl pending

run_cycle_forgets_example :
    ((run_cycle down acme one lane).1.jit_file ≡ none)
    × (outstanding (run_cycle down acme one lane).1.log ≡ [])
run_cycle_forgets_example =
    run_cycle_forgets down acme one lane (error 403) configured refl refl pending refl refl
      (λ t req. refl)

cycle_passes : (run_cycle site acme one lane).0 ≡ none
unfolding run_cycle Config.org text_eq any_of keep
cycle_passes = refl

-- A job is not started on a tree that keeps what an earlier one left.
abbrev stuck : Machine
stuck = record machine { rm = λ sub. false }

stuck_fails :
    run_job stuck opts slot_dir (codes "jit") (record { stale = codes "_diag" ∷ []; log = [] })
    ≡ (some (not_reset (codes "_diag")), record { stale = codes "_diag" ∷ []; log = [] })
unfolding run_job text_eq any_of keep
stuck_fails = refl
