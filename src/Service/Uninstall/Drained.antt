-- ===== src/Service/Uninstall/Drained.antt =====
-- When an uninstall does anything: the drain gate.
use srm.Prelude.{
  ℕ, suc, ◌≡◌, refl, ◌⊎◌, Bool, true, false, ◌&&◌, not, Option, none, some, List, [], ◌∷◌, any_of,
  All, arith, Bool-cases, Option-cases, inl, inr, if◌then◌else◌, Text,
}
use srm.Prelude.Int.{pos, eqb_ℤ}
use srm.Config.{org_names}
use srm.Service.Reconcile.Model.{Error, RunnerWithOrg}
use srm.Service.Reconcile.Github.{all_rows, list_errors, has_error}
use srm.Service.Uninstall.Model.{UninstallOpts, UninstallReport, Site, DrainError, Host}
use srm.Service.Uninstall.Plan.{plan}
use srm.Service.Uninstall.Gate.{is_busy, busy_runner, busy_lane, is_empty, or_lane, drain_gate}
use srm.Service.Uninstall.Run.{uninstall_units, uninstall}

-- GitHub has listed the org, and no runner of the name is busy.
abbrev pub IsIdle : List RunnerWithOrg → List (Text × Error) → Text × Text → Type 0
IsIdle rows errs x = (has_error x.0 errs ≡ false) × (any_of (is_busy x.0 x.1) rows ≡ false)

-- The lane had no registration on record when it was looked at.
abbrev pub IsFree : Site → Text × Text → Type 0
IsFree w x = (t : ℕ) × (w.lifecycle.pending_jit t x.0 x.1 ≡ pos 0)

pub record IsDrained (w : Site) (opts : UninstallOpts) (rep : UninstallReport) : Type 0 where
  pub are_idle :
      (opts.keep_github ≡ true)
      ⊎ All
          (IsIdle
            (all_rows w.world (org_names w.lifecycle.cfg))
            (list_errors w.world (org_names w.lifecycle.cfg)))
          rep.persistent
  pub are_free : All (IsFree w) rep.ephemeral

busy_runner-none :
    (rows : List RunnerWithOrg) (errs : List (Text × Error)) (targets : List (Text × Text))
    → busy_runner rows errs targets ≡ none
    → All (IsIdle rows errs) targets
unfolding busy_runner
busy_runner-none rows errs [] h = tt
busy_runner-none rows errs ((org, name) ∷ targets) h = elim (Bool-cases (has_error org errs)) [
  | inl e ↦ absurd (cc (rw e at h))
  | inr e ↦ elim (Bool-cases (any_of (is_busy org name) rows)) [
    | inl b ↦ absurd (cc (rw b at (rw e at h)))
    | inr b ↦ ((e, b), busy_runner-none rows errs targets (rw b at (rw e at h)))
  ]
]

busy_lane-none :
    (w : Site) (t : ℕ) (lanes : List (Text × Text))
    → busy_lane w t lanes ≡ none
    → All (IsFree w) lanes
unfolding busy_lane
busy_lane-none w t [] h = tt
busy_lane-none w t ((org, slot) ∷ lanes) h =
    elim (Bool-cases (eqb_ℤ (w.lifecycle.pending_jit t org slot) (pos 0))) [
      | inl e ↦ ((t, ground (arith, e)), busy_lane-none w (suc t) lanes (rw e at h))
      | inr e ↦ absurd (cc (rw e at h))
    ]

or_lane-none : (a b : Option DrainError) → or_lane a b ≡ none → (a ≡ none) × (b ≡ none)
or_lane-none none b h = (refl, h)
or_lane-none (some e) b h = absurd (cc h)

gate_of-none :
    (b : Bool) (x : Option DrainError) → (if b then none else x) ≡ none → (b ≡ true) ⊎ (x ≡ none)
gate_of-none true x h = inl refl
gate_of-none false x h = inr h

runner_gate-none :
    (keep : Bool) (rows : List RunnerWithOrg) (errs : List (Text × Error)) (ps : List (Text × Text))
    → (if not keep && not (is_empty ps) then busy_runner rows errs ps else none) ≡ none
    → (keep ≡ true) ⊎ All (IsIdle rows errs) ps
runner_gate-none true rows errs ps h = inl refl
runner_gate-none false rows errs [] h = inr tt
runner_gate-none false rows errs (p ∷ ps) h = inr (busy_runner-none rows errs (p ∷ ps) h)

gate-IsDrained :
    (w : Site) (opts : UninstallOpts) (t : ℕ) (rep : UninstallReport)
    → drain_gate w opts t rep.persistent rep.ephemeral ≡ none
    → (opts.force ≡ true) ⊎ IsDrained w opts rep
unfolding drain_gate
gate-IsDrained w opts t rep h = elim (gate_of-none opts.force _ h) [
  | inl e ↦ inl e
  | inr e ↦
      let (r, l) = or_lane-none _ _ e in
      inr (record {
        are_idle = runner_gate-none opts.keep_github _ _ rep.persistent r;
        are_free = busy_lane-none w t rep.ephemeral l;
      })
]

-- An uninstall that lists the units leaves the host as it is, or was forced, or has found every runner that
-- it removes idle on GitHub (if GitHub is asked at all) and every lane without a registration on record.
pub uninstall-IsDrained :
    (w : Site) (opts : UninstallOpts) (h : Host) (units lanes : List Text)
    → w.list_units ≡ some units
    → w.list_ephemeral_units ≡ some lanes
    → ((uninstall w opts h).1 ≡ h)
      ⊎ (opts.force ≡ true)
      ⊎ IsDrained w opts (plan w opts units lanes)
unfolding uninstall uninstall_units
uninstall-IsDrained w opts h units lanes u l =
    let rep : UninstallReport = plan w opts units lanes in
    let gate : Option DrainError = drain_gate w opts h.trail.now rep.persistent rep.ephemeral in
    elim (Bool-cases w.lifecycle.cfg.dry_run) [
      | inl d ↦ inl (simp (u, l, d) refl)
      | inr d ↦ elim (Option-cases gate) [
        | inl g ↦ inr (gate-IsDrained w opts h.trail.now rep g)
        | inr (e, g) ↦ inl (simp (u, l, d, g) refl)
      ]
    ]
