-- ===== src/Service/Cycle.antt =====
-- One ephemeral job cycle: RunCycle of internal/service/ephemeral.go with captureJobLog
-- (internal/service/joblog.go), on the jit-id file of internal/runner/orchestrator.go. GitHub, the disk
-- and the clock are the record Site, whose answers depend on the time, which each call moves on.
pub mod Tracked
pub mod Pace
pub mod Jobs
pub mod Ghosts
use Prim.Native.Nat.{◌^◌, ◌-◌}
use srm.Prelude.{
  ℕ, zero, suc, Bool, true, false, ◌&&◌, not, Option, none, some, List, [], ◌∷◌, ◌++◌, leb, ◌==◌,
  if◌then◌else◌, Text, codes, text_eq,
}
use srm.Prelude.Int.{ℤ, pos, negsuc, ltb_ℤ, eqb_ℤ}
use srm.Prelude.Decimal.{decimal}
use srm.Config.{Config, OrgConfig, org}
use srm.JobLog.{Meta}
use srm.Runner.Names.{ephemeral_runner_name}
use srm.Service.JitFile.{WriteFault, record_jit, pending_jit}
use srm.Runner.Job.{JobError, Machine, run_job}
use srm.Runner.Units.Render.{Options}
use srm.Service.Reconcile.Model.{Error, Reply, deleted, gone, refused}

pub record EphemeralParams : Type 0 where
  pub group_id : ℤ
  pub labels : List Text

pub record JitRequest : Type 0 where
  pub name : Text
  pub group_id : ℤ
  pub labels : List Text
  pub work_folder : Text

pub record JitConfig : Type 0 where
  pub runner_id : ℕ
  pub encoded : Text

-- GetRunner: a 404 is told apart from another error.
pub data Look : Type 0 where
  found missing unclear : Look

pub data CycleError : Type 0 where
  no_org no_client no_params not_minted not_recorded still_registered : CycleError
  job_failed : JobError → CycleError

pub data Event : Type 0 where
  minted : JitRequest → ℕ → Event
  asked_delete : ℤ → Reply → Event
  looked : ℕ → Look → Event
  recorded : ℕ → Event
  -- The job of a registration, and the jit-id file while it runs
  ran : ℕ → Option Text → Event
  captured : Meta → Event
  paused : Event

pub record Site : Type 0 where
  pub cfg : Config
  pub has_client : ℕ → Bool
  pub mint_params : ℕ → Option EphemeralParams
  pub nonce : ℕ → Text
  pub mint : ℕ → JitRequest → Option JitConfig
  pub delete_reply : ℕ → ℤ → Reply
  pub look : ℕ → ℕ → Look
  pub is_readable : ℕ → Bool
  pub is_removable : ℕ → Bool
  pub write_fault : ℕ → WriteFault
  pub install_root : Text
  pub options : Options
  pub machine : ℕ → Machine
  pub stale : ℕ → List Text
  pub unix : ℕ → ℤ
  pub error_text : CycleError → Text

-- The jit-id file of the slot, the time, and what was done, the last first
pub record Lane : Type 0 where
  pub now : ℕ
  pub jit_file : Option Text
  pub log : List Event

abbrev pub note : Event → Lane → Lane
note e l = record l { now = suc l.now; log = e ∷ l.log }

-- ClearJIT
unfoldable pub clear_jit : Site → Lane → Lane
clear_jit w l = record l {
  now = suc l.now;
  jit_file = if w.is_removable l.now then none else l.jit_file;
}

-- backoffSleep, and the return of an error
abbrev pub fail : CycleError → Lane → Option CycleError × Lane
fail e l = (some e, note paused l)

abbrev pub finish : Option CycleError → Lane → Option CycleError × Lane
finish none l = (none, l)
finish (some e) l = fail e l

abbrev pub ask_delete : Site → ℤ → Lane → Lane
ask_delete w id l = note (asked_delete id (w.delete_reply l.now id)) l

dropped : Site → Lane → Reply → Lane
unfolding clear_jit
dropped w l deleted = clear_jit w l
dropped w l gone = clear_jit w l
dropped w l (refused e) = l

-- The registration is still there: it is deleted, and forgotten if that succeeds.
unfoldable pub drop_registration : Site → ℤ → Lane → Lane
unfolding dropped
drop_registration w id l = dropped w (ask_delete w id l) (w.delete_reply l.now id)

abbrev or_registered : Option CycleError → Option CycleError
or_registered none = some still_registered
or_registered (some e) = some e

settled : Site → ℕ → Option CycleError → Lane → Look → Option CycleError × Lane
unfolding drop_registration
settled w id run_err l missing = finish run_err (clear_jit w l)
settled w id run_err l found = finish (or_registered run_err) (drop_registration w (pos id) l)
settled w id run_err l unclear = finish run_err l

-- The switch on the state of the registration
unfoldable pub settle : Site → ℕ → Option CycleError → Lane → Option CycleError × Lane
unfolding settled
settle w id run_err l =
    let look = w.look l.now id in settled w id run_err (note (looked id look) l) look

abbrev pub job_error : Option JobError → Option CycleError
job_error none = none
job_error (some e) = some (job_failed e)

abbrev is_nil : Option CycleError → Bool
is_nil none = true
is_nil (some e) = false

abbrev error_message : Site → Option CycleError → Text
error_message w none = []
error_message w (some e) = w.error_text e

-- The sidecar that captureJobLog writes
unfoldable pub job_meta : Site → Text → Text → Text → ℕ → ℕ → Option CycleError → ℕ → Meta
job_meta w org slot name id started run_err ended = record {
  org = org;
  slot = slot;
  runner_name = name;
  runner_id = pos id;
  started_unix = w.unix started;
  ended_unix = w.unix ended;
  ok = is_nil run_err;
  error = error_message w run_err;
  has_log = false;
  captured_unix = w.unix (suc ended);
}

-- ephemeralSlotDir
abbrev pub ephemeral_slot_dir : Text → Text → Text → Text
ephemeral_slot_dir root org slot = root ++ b'/' ∷ (org ++ (codes "/.ephemeral/" ++ slot))

-- What RunJob returns, on the machine that it finds
unfoldable pub job_result : Site → Text → Text → ℕ → Text → Option JobError
unfolding run_job
job_result w org slot t jit_config =
    (run_job (w.machine t) w.options (ephemeral_slot_dir w.install_root org slot) jit_config
      (record { stale = w.stale t; log = [] })).0

-- The lane when the job has run and its log is captured
abbrev pub run_captured : Site → Text → Text → Text → JitConfig → Lane → Lane
run_captured w org slot name jit l =
    let run_err = job_error (job_result w org slot l.now jit.encoded) in
    let l' = note (ran jit.runner_id l.jit_file) l in
    note (captured (job_meta w org slot name jit.runner_id l.now run_err l'.now)) l'

-- The job is run, its log is captured, and the registration is settled.
unfoldable pub run_minted : Site → Text → Text → Text → JitConfig → Lane → Option CycleError × Lane
unfolding settle job_meta job_result
run_minted w org slot name jit l =
    settle w jit.runner_id (job_error (job_result w org slot l.now jit.encoded))
      (run_captured w org slot name jit l)

abbrev after_record :
    Site → Text → Text → Text → JitConfig → Lane → Option Text × Bool → Option CycleError × Lane
after_record w org slot name jit l (file, true) =
    run_minted w org slot name jit (note (recorded jit.runner_id) (record l { jit_file = file }))
after_record w org slot name jit l (file, false) =
    fail not_recorded
      (ask_delete w (pos jit.runner_id) (record l { now = suc l.now; jit_file = file }))

abbrev after_mint :
    Site → Text → Text → JitRequest → Lane → Option JitConfig → Option CycleError × Lane
after_mint w org slot req l none = fail not_minted (record l { now = suc l.now })
after_mint w org slot req l (some jit) =
    after_record w org slot req.name jit (note (minted req jit.runner_id) l)
      (record_jit (w.write_fault (suc l.now)) jit.runner_id l.jit_file)

-- defaultGroupID
abbrev pub group_or_one : Option OrgConfig → ℤ
group_or_one none = pos 1
group_or_one (some oc) = if ltb_ℤ (pos 0) oc.default_group_id then oc.default_group_id else pos 1

unfoldable pub default_group_id : Config → Text → ℤ
default_group_id c name = group_or_one (org c name)

abbrev or_self_hosted : List Text → List Text
or_self_hosted [] = codes "self-hosted" ∷ []
or_self_hosted (x ∷ xs) = x ∷ xs

unfoldable pub mint_request : Site → Text → Text → ℕ → EphemeralParams → JitRequest
unfolding default_group_id
mint_request w org slot now params = record {
  name = ephemeral_runner_name org slot (w.nonce now);
  group_id = if eqb_ℤ params.group_id (pos 0) then default_group_id w.cfg org else params.group_id;
  labels = or_self_hosted params.labels;
  work_folder = codes "_work";
}

unfoldable pub mint_and_run :
    Site → Text → Text → Lane → Option EphemeralParams → Option CycleError × Lane
unfolding record_jit run_minted mint_request
mint_and_run w org slot l none = fail no_params (record l { now = suc l.now })
mint_and_run w org slot l (some params) =
    let req = mint_request w org slot l.now params in after_mint w org slot req l (w.mint l.now req)

-- The reap of a ghost that an earlier cycle left
unfoldable pub reap_ghost : Site → Lane → Lane
unfolding pending_jit clear_jit
reap_ghost w l =
    let stale = pending_jit (if w.is_readable l.now then l.jit_file else none) in
    if eqb_ℤ stale (pos 0) then l else clear_jit w (ask_delete w stale l)

cycle_with_client : Site → Text → Text → Lane → Option CycleError × Lane
unfolding mint_and_run reap_ghost
cycle_with_client w org slot l =
    let l' = reap_ghost w l in mint_and_run w org slot l' (w.mint_params l'.now)

-- requireOrg: the org is named and configured.
abbrev pub require_org : Config → Text → Bool
require_org c name = not (text_eq name []) && elim (org c name) [ none ↦ false | some oc ↦ true ]

unfoldable pub run_cycle : Site → Text → Text → Lane → Option CycleError × Lane
unfolding cycle_with_client
run_cycle w name slot l =
    if not (require_org w.cfg name)
    then fail no_org l
    else if not (w.has_client l.now)
    then fail no_client l
    else cycle_with_client w name slot l

-- The unit runs one cycle after the other; each may find another world.
unfoldable pub run_cycles : List Site → Text → Text → Lane → Lane
run_cycles [] name slot l = l
run_cycles (w ∷ ws) name slot l = run_cycles ws name slot (run_cycle w name slot l).1
