-- ===== src/Service/Reconcile/Model.antt =====
-- What Reconcile reads and calls: configuration, GitHub and the host are the record World. What it reads
-- of a unit may change while it runs, so these answers depend on the time, which each call moves on.
use srm.Prelude.{ℕ, suc, Bool, Option, List, ◌∷◌, Text}
use srm.Prelude.Int.{ℤ, negsuc}
use srm.Core.{Runner}
use srm.Service.Drift.{DriftClass, Detail, Inspection, EphemeralInspection}

pub data Error : Type 0 where
  error : ℕ → Error

-- ListRunners of one org.
pub data Listing : Type 0 where
  listed : List Runner → Listing
  failed : Error → Listing

-- The answer to a deregistration; a 404 is told apart.
pub data Reply : Type 0 where
  deleted gone : Reply
  refused : Error → Reply

pub record RunnerWithOrg : Type 0 where
  pub org : Text
  pub runner : Runner
  pub local : Bool

-- What is done, or would be, about a runner.
pub data Fix : Type 0 where
  no_fix skipped_busy would_remove removed would_refresh refreshed : Fix
  skipped_newer would_reap reaped : Fix

pub record RunnerState : Type 0 where
  pub org : Text
  pub name : Text
  pub class : DriftClass
  pub detail : Detail
  pub local : Bool
  pub active : Bool
  pub user : Text
  pub on_github : Bool
  pub online : Bool
  pub busy : Bool
  pub mem_peak : ℤ
  pub mem_max : ℤ
  pub mem_cur : ℤ
  pub oom_kills : ℤ
  pub fix : Fix
  pub fix_err : Option Error

pub record DiskStat : Type 0 where
  pub path : Text
  pub total_bytes : ℕ
  pub used_bytes : ℕ
  pub avail_bytes : ℕ
  pub use_pct : ℕ

pub record CacheSize : Type 0 where
  pub label : Text
  pub bytes : ℕ

-- A call that changes GitHub or the host.
pub data Action : Type 0 where
  delete_runner : Text → ℕ → Action
  remove_runner : Text → Text → Action
  refresh_unit : Text → Text → Action

pub record World : Type 0 where
  pub org_names : List Text
  pub per_org_users : Bool
  pub list_runners : Text → Listing
  pub runner_is_local : Text → Text → Bool
  pub list_units : Option (List Text)
  pub list_ephemeral_units : Option (List Text)
  pub inspect : ℕ → Text → Text → Inspection
  pub inspect_ephemeral : ℕ → Text → Text → EphemeralInspection
  pub pending_jit : ℕ → Text → Text → ℕ
  pub client_error : Text → Option Error
  pub delete_reply : ℕ → Text → ℕ → Reply
  pub remove_reply : ℕ → Text → Text → Option Error
  pub refresh_reply : ℕ → Text → Text → Option Error
  pub host_disk : List Text → List DiskStat
  pub dir_size : Text → ℕ
  pub slice_current : ℤ
  pub slice_max : ℤ

-- The time, and the changes made so far, the last one first.
pub record Pass : Type 0 where
  pub now : ℕ
  pub log : List Action

abbrev pub tick : Pass → Pass
tick p = record p { now = suc p.now }

abbrev pub perform : Action → Pass → Pass
perform a p = record { now = suc p.now; log = a ∷ p.log }

abbrev pub unmeasured : ℤ
unmeasured = negsuc 0
