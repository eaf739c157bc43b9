-- ===== src/Service/Reconcile/Safety/Repairs.antt =====
-- The repair of explained rows makes justified changes.
use srm.Prelude.{
  ◌≡◌, refl, ◌⊎◌, inl, inr, Bool, true, false, not, List, [], ◌∷◌, arith, Bool-cases, All, Text,
}
use srm.Service.Drift.{DriftClass, orphan_unit, stale_drop_in, stuck}
use srm.Service.Reconcile.Model.{
  RunnerWithOrg, RunnerState, Action, remove_runner, refresh_unit, World, Pass,
}
use srm.Service.Reconcile.Repair.{
  repair_orphan, repair_refresh, by_class, repair_runner, repair_all,
}
use srm.Service.Reconcile.Safety.{IsExplained, IsJustified}

module _ (w : World) (apply : Bool) (P : Action → Type 0) where
  repair_orphan-All :
      (st : RunnerState) (p : Pass)
      → (apply ≡ true → P (remove_runner st.org st.name))
      → All P p.log
      → All P (repair_orphan w apply st p).1.log
  unfolding repair_orphan
  repair_orphan-All st p may h = elim (Bool-cases st.busy) [
    | inl e ↦ rw e h
    | inr e ↦ elim (Bool-cases apply) [ inl a ↦ rw e (rw a (may a, h)) | inr a ↦ rw e (rw a h) ]
  ]

  repair_refresh-All :
      (st : RunnerState) (p : Pass)
      → (apply ≡ true → st.busy ≡ false → P (refresh_unit st.org st.name))
      → All P p.log
      → All P (repair_refresh w apply st p).1.log
  unfolding repair_refresh
  repair_refresh-All st p may h = elim (Bool-cases st.busy) [
    | inl e ↦ rw e h
    | inr e ↦ elim (Bool-cases apply) [ inl a ↦ rw e (rw a (may a e, h)) | inr a ↦ rw e (rw a h) ]
  ]

  by_class-All :
      (c : DriftClass) (st : RunnerState) (p : Pass)
      → (apply ≡ true → c ≡ orphan_unit → P (remove_runner st.org st.name))
      → (apply ≡ true
          → (c ≡ stale_drop_in) ⊎ (c ≡ stuck)
          → st.busy ≡ false
          → P (refresh_unit st.org st.name))
      → All P p.log
      → All P (by_class c w apply st p).1.log
  unfolding by_class
  by_class-All orphan_unit st p rem ref h = repair_orphan-All st p (λ a. rem a refl) h
  by_class-All stale_drop_in st p rem ref h = repair_refresh-All st p (λ a. ref a (inl refl)) h
  by_class-All stuck st p rem ref h = repair_refresh-All st p (λ a. ref a (inr refl)) h
  by_class-All _ st p rem ref h = h

  repair_runner-All :
      (st : RunnerState) (p : Pass)
      → (apply ≡ true → st.class ≡ orphan_unit → P (remove_runner st.org st.name))
      → (apply ≡ true
          → (st.class ≡ stale_drop_in) ⊎ (st.class ≡ stuck)
          → st.busy ≡ false
          → P (refresh_unit st.org st.name))
      → All P p.log
      → All P (repair_runner w apply st p).1.log
  unfolding repair_runner
  repair_runner-All st p rem ref h = by_class-All st.class st p rem ref h

module _ (w : World) (reap : Bool) (org_filter : Text) (dry_run : Bool)
    (rows : List RunnerWithOrg) where
  abbrev Justified : Action → Type 0
  Justified = IsJustified w true reap org_filter dry_run rows

  -- The repair of rows whose class is explained makes justified changes only.
  pub repair_all-Justified :
      (sts : List RunnerState) (p : Pass)
      → All (IsExplained w org_filter rows) sts
      → All Justified p.log
      → All Justified (repair_all w (not dry_run) sts p).1.log
  unfolding repair_all
  repair_all-Justified [] p ex h = h
  repair_all-Justified (st ∷ sts) p ex h =
      repair_all-Justified sts (repair_runner w (not dry_run) st p).1 ex.1 (
        repair_runner-All w (not dry_run) Justified st p
          (λ a c.
            let (org, off) = ex.0.orphan c in
            record { asked = refl; not_dry = ground arith; in_org = org; not_registered = off })
          (λ a c idle. record {
            asked = refl;
            not_dry = ground arith;
            target = ex.0.refresh c idle;
          })
          h)
