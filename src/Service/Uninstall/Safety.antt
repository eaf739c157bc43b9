-- ===== src/Service/Uninstall/Safety.antt =====
-- What an uninstall does to a host, as a whole.
use srm.Prelude.{◌≡◌, refl, ◌⊎◌, false, Option, none, some, List, [], All, inl, inr, if_split, Text}
use srm.Service.Lifecycle.Model.{Result, ok, err, Trail}
use srm.Service.Uninstall.Model.{
  UninstallOpts, TeardownError, UninstallReport, Site, Outcome, DrainError, Host,
}
use srm.Service.Uninstall.Plan.{plan}
use srm.Service.Uninstall.Teardown.{add_errors, tear_down}
use srm.Service.Uninstall.Run.{torn, apply_plan, uninstall_units, uninstall}
use srm.Service.Uninstall.Scope.{IsInScope, targets_of-AreTargets, tear_down-Calls}
use srm.Service.Uninstall.Own.{
  IsOwn, IsBackedUp, AreOwn, drop_base-AreOwn, plan-AreSrmUsers, plan-DirFits, plan-BinaryFits,
}

-- The state of the host that an uninstall may leave
pub record IsScoped (w : Site) (opts : UninstallOpts) (h : Host) : Type 0 where
  pub are_in_scope : All (IsInScope w.lifecycle opts.org) h.trail.log
  pub are_own : All (IsOwn opts) h.purges
  pub are_backed_up : IsBackedUp h.purges
  pub is_live : (h.purges ≡ []) ⊎ (w.lifecycle.cfg.dry_run ≡ false)

module _ (w : Site) (opts : UninstallOpts) where
  abbrev Quiet : Host → Type 0
  Quiet h = (h.trail.log ≡ []) × (h.purges ≡ [])

  untouched : (h : Host) → Quiet h → IsScoped w opts h
  untouched h (l, p) = record {
    are_in_scope = rw l tt;
    are_own = rw p tt;
    are_backed_up = rw p tt;
    is_live = inl p;
  }

  scoped :
      (t : Trail) (h : Host)
      → All (IsInScope w.lifecycle opts.org) t.log
      → w.lifecycle.cfg.dry_run ≡ false
      → AreOwn opts t h
      → IsScoped w opts h
  scoped t h c live (e, k, l) = record {
    are_in_scope = rw e c;
    are_own = k;
    are_backed_up = l;
    is_live = inr live;
  }

  torn-IsScoped :
      (units lanes : List Text) (o : Result (List TeardownError) × Trail) (h : Host)
      → h.purges ≡ []
      → w.lifecycle.cfg.dry_run ≡ false
      → All (IsInScope w.lifecycle opts.org) o.1.log
      → IsScoped w opts (torn w opts (plan w opts units lanes) o h).1
  torn-IsScoped units lanes (ok errs, t) h p live c =
      let rep : UninstallReport = plan w opts units lanes in
      scoped t _ c live (
        drop_base-AreOwn w opts t (add_errors errs rep) (record h { trail = t })
          (plan-AreSrmUsers w opts units lanes) (plan-DirFits w opts units lanes)
          (plan-BinaryFits w opts units lanes) (refl, rw p tt, rw p tt))
  torn-IsScoped units lanes (err e, t) h p live c =
      let rep : UninstallReport = plan w opts units lanes in
      scoped t _ c live (
        drop_base-AreOwn w opts t rep (record h { trail = t }) (plan-AreSrmUsers w opts units lanes)
          (plan-DirFits w opts units lanes) (plan-BinaryFits w opts units lanes)
          (refl, rw p tt, rw p tt))

  apply_plan-IsScoped :
      (units lanes : List Text) (h : Host) (o : Option DrainError)
      → Quiet h
      → w.lifecycle.cfg.dry_run ≡ false
      → IsScoped w opts (apply_plan w opts (plan w opts units lanes) h o).1
  unfolding plan
  apply_plan-IsScoped units lanes h (some e) q live = untouched h q
  apply_plan-IsScoped units lanes h none (l, p) live =
      let rep : UninstallReport = plan w opts units lanes in
      torn-IsScoped units lanes
        (tear_down opts.keep_github rep.persistent rep.ephemeral w.lifecycle h.trail) h p live
        ((tear_down-Calls w.lifecycle opts.org live opts.keep_github rep.persistent rep.ephemeral
            (targets_of-AreTargets _ opts.org units) (targets_of-AreTargets _ opts.org lanes)).at
          h.trail (rw l tt))

  units-IsScoped :
      (h : Host) (units lanes : Option (List Text))
      → Quiet h
      → IsScoped w opts (uninstall_units w opts h units lanes).1
  unfolding uninstall_units
  units-IsScoped h none lanes q = untouched h q
  units-IsScoped h (some units) none q = untouched h q
  units-IsScoped h (some units) (some lanes) q =
      if_split (λ (x : Outcome × Host). IsScoped w opts x.1) w.lifecycle.cfg.dry_run
        (λ e. untouched h q) (λ live. apply_plan-IsScoped units lanes h _ q live)

-- Whatever fails: each call of an uninstall is about an org in its scope; users that are removed have a name
-- that begins with srm; the slice, the config dir and the binary are removed only by an uninstall of the
-- whole host, the dir only if it was to be purged and right after its backup was written; and a dry run
-- changes nothing.
pub uninstall-IsScoped :
    (w : Site) (opts : UninstallOpts) (h : Host)
    → h.trail.log ≡ []
    → h.purges ≡ []
    → IsScoped w opts (uninstall w opts h).1
unfolding uninstall
uninstall-IsScoped w opts h l p = units-IsScoped w opts h w.list_units w.list_ephemeral_units (l, p)
