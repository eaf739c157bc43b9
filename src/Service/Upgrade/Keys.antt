-- ===== src/Service/Upgrade/Keys.antt =====
-- Every result of the pass carries the org and the name of its runner.
use srm.Prelude.{◌≡◌, refl, none, some, arith, Bool-cases, inl, inr, Text, Option, ℕ}
use srm.Service.Manifest.{RunnerRecord}
use srm.Service.Reconcile.Model.{RunnerWithOrg}
use srm.Service.Upgrade.Model.{
  Skip, no_skip, Opts, UpgradeResult, Download, AgentReply, swapped_ok, swap_error, Host, State,
}
use srm.Service.Upgrade.{
  Target, stop, install, resolve_target, gated, identified, try_install, swap, after_swap,
  upgrade_one_persistent, resolve, live_busy, rollback_target, forward_target,
}

-- A result about the same runner as another
abbrev pub IsFor : Text → Text → UpgradeResult → Type 0
IsFor org name res = (res.org ≡ org) × (res.name ≡ name)

abbrev target_result : Target → UpgradeResult
target_result (stop res) = res
target_result (install dl res) = res

module _ (h : Host) (opts : Opts) (row : RunnerWithOrg) (rec : RunnerRecord) (id : ℕ)
    (org name : Text) where
  after_swap-IsFor :
      (res : UpgradeResult) (s : State) (r : AgentReply)
      → IsFor org name res
      → IsFor org name (after_swap h rec res id s r).0
  unfolding after_swap
  after_swap-IsFor res s swapped_ok k = k
  after_swap-IsFor res s (swap_error down) k = k

  gated-IsFor :
      (s : State) (dl : Download) (res : UpgradeResult) (skip : Skip)
      → IsFor org name res
      → IsFor org name (gated h opts row rec id s dl res skip).0
  unfolding gated swap
  gated-IsFor s dl res no_skip k = elim (Bool-cases opts.dry_run) [
    | inl d ↦ simp d k
    | inr d ↦ elim (Bool-cases (live_busy (h.get_runner_busy s.time row.org row.runner.id))) [
      | inl b ↦ simp (d, b) k
      | inr b ↦ simp (d, b) (after_swap-IsFor res _ _ k)
    ]
  ]
  gated-IsFor s dl res skip k = k

  rollback-IsFor :
      (res : UpgradeResult)
      → IsFor org name res
      → IsFor org name (target_result (rollback_target h rec res))
  unfolding rollback_target
  rollback-IsFor res k = ground arith

  forward-IsFor :
      (res : UpgradeResult) (dl : Option Download)
      → IsFor org name res
      → IsFor org name (target_result (forward_target res dl))
  unfolding forward_target
  forward-IsFor res none k = k
  forward-IsFor res (some dl) k = k

  resolve_target-IsFor :
      (target : Text) (res : UpgradeResult) (s : State)
      → IsFor org name res
      → IsFor org name (target_result (resolve_target h opts target row.org res rec s).0)
  unfolding resolve_target
  resolve_target-IsFor target res s k = elim (Bool-cases opts.rollback) [
    | inl e ↦ simp e (rollback-IsFor res k)
    | inr e ↦ simp e (forward-IsFor res (resolve h target row.org s).0 k)
  ]

  try_install-IsFor :
      (s : State) (t : Target)
      → IsFor org name (target_result t)
      → IsFor org name (try_install h opts row rec id s t).0
  unfolding try_install
  try_install-IsFor s (stop res) k = k
  try_install-IsFor s (install dl res) k = gated-IsFor s dl res _ k

  identified-IsFor :
      (target : Text) (res : UpgradeResult) (s : State) (skip : Skip)
      → IsFor org name res
      → IsFor org name (identified h opts target row rec id res s skip).0
  unfolding identified
  identified-IsFor target res s no_skip k =
      let t = resolve_target h opts target row.org res rec s in
      try_install-IsFor t.1 t.0 (resolve_target-IsFor target res s k)
  identified-IsFor target res s skip k = k

pub upgrade_one-IsFor :
    (h : Host) (opts : Opts) (target : Text) (row : RunnerWithOrg) (s : State)
    → IsFor row.org row.runner.name (upgrade_one_persistent h opts target row s).0
unfolding upgrade_one_persistent
upgrade_one-IsFor h opts target row s = elim (Bool-cases row.runner.busy) [
  | inl b ↦ simp b (refl, refl)
  | inr b ↦
      simp b (identified-IsFor h opts row _ _ row.org row.runner.name target _ s _ (refl, refl))
]
