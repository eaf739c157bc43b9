-- ===== src/Service/Upgrade/Pass/Results.antt =====
-- Which runners the pass reports on.
use srm.Prelude.{◌≡◌, refl, [], List, ◌∷◌, Bool-cases, inl, inr, map, keep, Text}
use srm.Service.Reconcile.Model.{RunnerWithOrg}
use srm.Service.Upgrade.Model.{Opts, UpgradeResult, Host, State}
use srm.Service.Upgrade.{in_scope, upgrade_persistent}
use srm.Service.Upgrade.Keys.{upgrade_one-IsFor}

abbrev pub result_key : UpgradeResult → Text × Text
result_key res = (res.org, res.name)

abbrev pub row_key : RunnerWithOrg → Text × Text
row_key row = (row.org, row.runner.name)

-- There is one result for each runner in scope, in the order of the list.
upgrade_persistent-keep :
    (h : Host) (opts : Opts) (target : Text) (rows : List RunnerWithOrg) (s : State)
    → map result_key (upgrade_persistent h opts target rows s).0
      ≡ map row_key (keep (in_scope opts) rows)
unfolding upgrade_persistent keep
upgrade_persistent-keep h opts target [] s = refl
upgrade_persistent-keep h opts target (row ∷ rows) s = elim (Bool-cases (in_scope opts row)) [
  | inl e ↦
      let (o, n) = upgrade_one-IsFor h opts target row s in
      simp (e, o, n, upgrade_persistent-keep h opts target rows) refl
  | inr e ↦ simp e (upgrade_persistent-keep h opts target rows s)
]
