-- ===== src/Service/Reconcile/Safety/Rows.antt =====
-- The loops over units and lanes change nothing, and report rows whose class is explained.
use srm.Prelude.{
  ℕ, ◌≡◌, ◌≢◌, refl, sym, ap, ◌∙◌, inl, inr, true, false, Option, none, some, List, [], ◌∷◌, arith,
  Bool-cases, All, All-append, Text,
}
use srm.Service.Drift.{EphemeralInspection, orphan_unit, stale_drop_in, stuck, classify_ephemeral}
use srm.Service.Reconcile.Model.{RunnerWithOrg, RunnerState, World, Pass}
use srm.Service.UnitNames.{orgs_by_len, parse_unit_name, parse_ephemeral_unit_name}
use srm.Service.Drift.Laws.{orphan_unit_iff, refreshed_not_newer}
use srm.Service.Reconcile.Github.{filtered_out, gh_row, listed_ok}
use srm.Service.Reconcile.Units.{
  unit_state, lane_state, unit_step, inspect_units, lane_step, inspect_lanes, row_online, row_busy,
  is_some,
}
use srm.Service.Reconcile.Safety.{IsExplained}
use srm.Service.Reconcile.Safety.Lookup.{
  filtered_out-IsInOrg, gh_row-IsOther, gh_row-mem, listed_ok-read,
}

module _ (w : World) (org_filter : Text) (rows : List RunnerWithOrg) where
  unit_step-log :
      (parsed : Option (Text × Text)) (p : Pass)
      → (unit_step w org_filter rows parsed p).1.log ≡ p.log
  unfolding unit_step
  unit_step-log parsed p = ground arith

  pub inspect_units-log :
      (units : List Text) (p : Pass) → (inspect_units w org_filter rows units p).1.log ≡ p.log
  unfolding inspect_units
  inspect_units-log [] p = refl
  inspect_units-log (svc ∷ units) p =
      inspect_units-log units
        (unit_step w org_filter rows (parse_unit_name svc (orgs_by_len w.org_names)) p).1
      ∙ unit_step-log (parse_unit_name svc (orgs_by_len w.org_names)) p

  none_of_is_some : (row : Option RunnerWithOrg) → is_some row ≡ false → row ≡ none
  none_of_is_some row h = ground arith

  some_of_is_some :
      (row : Option RunnerWithOrg) → is_some row ≡ true → (r : RunnerWithOrg) × (row ≡ some r)
  some_of_is_some none h = absurd (ground arith)
  some_of_is_some (some r) h = (r, refl)

  unit_state-IsExplained :
      (org name : Text) (t : ℕ)
      → filtered_out org_filter org ≡ false
      → IsExplained w org_filter rows (
          unit_state w org_filter (gh_row org_filter rows org name) (w.inspect t org name) org name)
  unfolding unit_state
  unit_state-IsExplained org name t f =
      let row = gh_row org_filter rows org name in
      let insp = w.inspect t org name in
      record {
        orphan = λ c.
            let (off, ok) =
              (orphan_unit_iff insp (is_some row) (listed_ok w org) (row_online row)).0 c in
            (
              filtered_out-IsInOrg org_filter org f,
              (
                listed_ok-read w org ok,
                gh_row-IsOther org_filter org name rows f (none_of_is_some row off),
              ),
            );
        refresh = λ c idle.
            let (on, older) =
              refreshed_not_newer insp (is_some row) (listed_ok w org) (row_online row) c in
            let (r, e) = some_of_is_some row on in
            let (m, o, n) = gh_row-mem org_filter org name rows r e in
            record {
              row = r;
              registered = m;
              same_org = o;
              same_name = n;
              in_org = filtered_out-IsInOrg org_filter org f;
              not_busy = sym (ap row_busy e) ∙ idle;
              time = t;
              not_newer = older;
            };
      }

  unit_step-IsExplained :
      (parsed : Option (Text × Text)) (p : Pass)
      → All (IsExplained w org_filter rows) (unit_step w org_filter rows parsed p).0
  unfolding unit_step
  unit_step-IsExplained none p = tt
  unit_step-IsExplained (some (org, name)) p = elim (Bool-cases (filtered_out org_filter org)) [
    | inl e ↦ rw e tt
    | inr e ↦ rw e (unit_state-IsExplained org name p.now e, tt)
  ]

  pub inspect_units-IsExplained :
      (units : List Text) (p : Pass)
      → All (IsExplained w org_filter rows) (inspect_units w org_filter rows units p).0
  unfolding inspect_units
  inspect_units-IsExplained [] p = tt
  inspect_units-IsExplained (svc ∷ units) p =
      let parsed = parse_unit_name svc (orgs_by_len w.org_names) in
      let p' = (unit_step w org_filter rows parsed p).1 in
      All-append (IsExplained w org_filter rows) (unit_step w org_filter rows parsed p).0
        (inspect_units w org_filter rows units p').0 (unit_step-IsExplained parsed p)
        (inspect_units-IsExplained units p')

  -- A class that repair leaves alone, or only marks, explains itself.
  pub plain-IsExplained :
      (st : RunnerState)
      → st.class ≢ orphan_unit
      → st.class ≢ stale_drop_in
      → st.class ≢ stuck
      → IsExplained w org_filter rows st
  plain-IsExplained st a b c = record {
    orphan = λ e. absurd (a e);
    refresh = λ e _. elim e [ inl q ↦ absurd (b q) | inr q ↦ absurd (c q) ];
  }

  lane_state-IsExplained :
      (insp : EphemeralInspection) (org slot : Text)
      → IsExplained w org_filter rows (lane_state insp org slot)
  unfolding lane_state classify_ephemeral
  lane_state-IsExplained insp org slot =
      plain-IsExplained (lane_state insp org slot) (λ e. ground arith) (λ e. ground arith)
        (λ e. ground arith)

  lane_step-IsExplained :
      (parsed : Option (Text × Text)) (p : Pass)
      → All (IsExplained w org_filter rows) (lane_step w org_filter parsed p).0
  unfolding lane_step
  lane_step-IsExplained none p = tt
  lane_step-IsExplained (some (org, slot)) p = elim (Bool-cases (filtered_out org_filter org)) [
    | inl e ↦ rw e tt
    | inr e ↦ rw e (lane_state-IsExplained (w.inspect_ephemeral p.now org slot) org slot, tt)
  ]

  pub inspect_lanes-IsExplained :
      (units : List Text) (p : Pass)
      → All (IsExplained w org_filter rows) (inspect_lanes w org_filter units p).0
  unfolding inspect_lanes
  inspect_lanes-IsExplained [] p = tt
  inspect_lanes-IsExplained (svc ∷ units) p =
      let parsed = parse_ephemeral_unit_name svc (orgs_by_len w.org_names) in
      let p' = (lane_step w org_filter parsed p).1 in
      All-append (IsExplained w org_filter rows) (lane_step w org_filter parsed p).0
        (inspect_lanes w org_filter units p').0 (lane_step-IsExplained parsed p)
        (inspect_lanes-IsExplained units p')

lane_step-log :
    (w : World) (org_filter : Text) (parsed : Option (Text × Text)) (p : Pass)
    → (lane_step w org_filter parsed p).1.log ≡ p.log
unfolding lane_step
lane_step-log w org_filter parsed p = ground arith

pub inspect_lanes-log :
    (w : World) (org_filter : Text) (units : List Text) (p : Pass)
    → (inspect_lanes w org_filter units p).1.log ≡ p.log
unfolding inspect_lanes
inspect_lanes-log w org_filter [] p = refl
inspect_lanes-log w org_filter (svc ∷ units) p =
    inspect_lanes-log w org_filter units
      (lane_step w org_filter (parse_ephemeral_unit_name svc (orgs_by_len w.org_names)) p).1
    ∙ lane_step-log w org_filter (parse_ephemeral_unit_name svc (orgs_by_len w.org_names)) p
