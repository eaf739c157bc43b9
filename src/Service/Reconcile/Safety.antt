-- ===== src/Service/Reconcile/Safety.antt =====
-- What a reconcile pass may do to GitHub and to the host.
pub mod Lookup
pub mod Rows
pub mod Deletions
pub mod Repairs
pub mod Justified
use srm.Prelude.Strings.{has_prefix}
use srm.Prelude.{
  codes, ℕ, suc, ◌≡◌, ◌≢◌, refl, sym, ap, ◌∙◌, ◌⊎◌, inl, inr, Bool, true, false, ◌&&◌, ◌||◌, not,
  Option, none, some, List, [], ◌∷◌, ◌++◌, arith, if◌then◌else◌, ◌==◌, Bool-cases, Option-cases,
  All, All-append, Memᴰ, Text, text_eq,
}
use srm.Core.{Runner, online}
use srm.Runner.Names.{is_ephemeral_runner_name, ephemeral_slot_from_name}
use srm.Service.Drift.{orphan_unit, stale_drop_in, stuck}
use srm.Service.Reconcile.Model.{
  Error, listed, RunnerWithOrg, RunnerState, Action, delete_runner, remove_runner, refresh_unit,
  World, Pass,
}
use srm.Service.Reconcile.Github.{gh_row, listed_ok}
use srm.Service.Reconcile.Units.{inspect_units, inspect_lanes, seen}
use srm.Service.Reconcile.Ghosts.{reap_ghost, in_flight, maybe_reap_ghost, github_only}
use srm.Service.Reconcile.Repair.{repair_runner, repair_all}

module _ (w : World) where
  -- At some time of the pass the slot's lane was seen on this host, and, if it was active, a registration
  -- other than this one was recorded as in flight.
  pub record IsGhost (org slot : Text) (id : ℕ) : Type 0 where
    pub time : ℕ
    pub lane_here : (w.inspect_ephemeral time org slot).unit_exists ≡ true
    pub not_in_flight :
        ((w.inspect_ephemeral time org slot).active ≡ false)
        ⊎ (w.pending_jit (suc time) org slot ≢ 0) × (id ≢ w.pending_jit (suc time) org slot)

-- The org asked for, where the empty filter asks for every org
abbrev pub IsInOrg : Text → Text → Type 0
IsInOrg org_filter org = (org_filter ≡ []) ⊎ (org ≡ org_filter)

-- The row is of another runner.
abbrev pub IsOther : Text → Text → RunnerWithOrg → Type 0
IsOther org name row = (row.org ≢ org) ⊎ (row.runner.name ≢ name)

-- The org's list was read, and the runner is in no row of what was listed.
abbrev pub IsUnregistered : World → List RunnerWithOrg → Text → Text → Type 0
IsUnregistered w rows org name =
    ((rs : List Runner) × (w.list_runners org ≡ listed rs)) × All (IsOther org name) rows

module _ (w : World) (org_filter : Text) (rows : List RunnerWithOrg) where
  -- The runner is registered and idle, and its drop-in was seen to be of no newer template.
  pub record IsRefreshable (org name : Text) : Type 0 where
    pub row : RunnerWithOrg
    pub registered : Memᴰ row rows
    pub same_org : row.org ≡ org
    pub same_name : row.runner.name ≡ name
    pub in_org : IsInOrg org_filter org
    pub not_busy : row.runner.busy ≡ false
    pub time : ℕ
    pub not_newer : (w.inspect time org name).drop_in_newer ≡ false

  -- What the class of a reported row tells the repair.
  pub record IsExplained (st : RunnerState) : Type 0 where
    pub orphan :
        st.class ≡ orphan_unit → IsInOrg org_filter st.org × IsUnregistered w rows st.org st.name
    pub refresh :
        (st.class ≡ stale_drop_in) ⊎ (st.class ≡ stuck)
        → st.busy ≡ false
        → IsRefreshable st.org st.name

-- Why a change may be made. `reap`, `fix` and `dry_run` are the arguments of the pass and `rows` the
-- runners that GitHub listed.
module _ (w : World) (fix reap : Bool) (org_filter : Text) (dry_run : Bool)
    (rows : List RunnerWithOrg) where
  pub record MayDelete (org : Text) (id : ℕ) : Type 0 where
    pub asked : reap ≡ true
    pub not_dry : dry_run ≡ false
    pub row : RunnerWithOrg
    pub is_listed : Memᴰ row rows
    pub in_org : IsInOrg org_filter row.org
    pub same_org : row.org ≡ org
    pub same_id : row.runner.id ≡ id
    pub minted : has_prefix row.runner.name (codes "srm-eph-") ≡ true
    pub offline : row.runner.status ≢ codes "online"
    pub not_busy : row.runner.busy ≡ false
    pub slot : Text
    pub named : ephemeral_slot_from_name row.runner.name org ≡ some slot
    pub is_ghost : IsGhost w org slot id

  pub record MayRemove (org name : Text) : Type 0 where
    pub asked : fix ≡ true
    pub not_dry : dry_run ≡ false
    pub in_org : IsInOrg org_filter org
    pub not_registered : IsUnregistered w rows org name

  pub record MayRefresh (org name : Text) : Type 0 where
    pub asked : fix ≡ true
    pub not_dry : dry_run ≡ false
    pub target : IsRefreshable w org_filter rows org name

  abbrev pub IsJustified : Action → Type 0
  IsJustified (delete_runner org id) = MayDelete org id
  IsJustified (remove_runner org name) = MayRemove org name
  IsJustified (refresh_unit org name) = MayRefresh org name
