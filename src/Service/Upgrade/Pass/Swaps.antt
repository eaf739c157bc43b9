-- ===== src/Service/Upgrade/Pass/Swaps.antt =====
-- Which agents the pass swaps.
use srm.Service.Upgrade.Pass.Scope.{
  in_scope-is_local, in_scope-not_minted, in_scope-in_org, in_scope-in_selection,
}
use srm.Prelude.Strings.{has_prefix}
use srm.Prelude.{
  codes, ◌≡◌, refl, sym, ◌∙◌, true, false, Bool, not, [], List, ◌∷◌, if◌then◌else◌, Bool-cases, inl,
  inr, All, Memᴰ, Text, text_eq, ◌⊎◌, false≢true, ◌&&◌, any_of,
}
use srm.Service.Manifest.{StateManifest}
use srm.Service.Manifest.Disk.{Result, ok, err}
use srm.Service.Reconcile.Model.{RunnerWithOrg, World}
use srm.Service.Reconcile.Github.{all_rows}
use srm.Service.Upgrade.Model.{Opts, Event, swapped, saved, Host, State, runner_ref}
use srm.Service.Upgrade.{in_scope, upgrade_one_persistent, upgrade_persistent, save_after}
use srm.Service.Upgrade.Laws.{upgrade_one_persistent-OneOutcome}
use srm.Service.Upgrade.Pass.{
  Report, not_configured, target_version, start, last_save, run_pass, loaded_pass,
  upgrade_local_runners,
}

-- What the log of a pass keeps if every round over a runner in scope keeps it.
module _ (h : Host) (opts : Opts) (target : Text) (I : State → Type 0) where
  abbrev pub Keeps : RunnerWithOrg → Type 0
  Keeps row =
      (s : State)
      → in_scope opts row ≡ true
      → I s
      → I (save_after opts (upgrade_one_persistent h opts target row s).1)

  upgrade_persistent-keeps :
      (rows : List RunnerWithOrg) (s : State)
      → ((row : RunnerWithOrg) → Memᴰ row rows → Keeps row)
      → I s
      → I (upgrade_persistent h opts target rows s).1
  unfolding upgrade_persistent
  upgrade_persistent-keeps [] s step i = i
  upgrade_persistent-keeps (row ∷ rows) s step i = elim (Bool-cases (in_scope opts row)) [
    | inl e ↦ simp e (
        upgrade_persistent-keeps rows
          (save_after opts (upgrade_one_persistent h opts target row s).1)
          (λ r m. step r (Memᴰ.tail m)) (step row (Memᴰ.head refl) s e i))
    | inr e ↦ simp e (upgrade_persistent-keeps rows s (λ r m. step r (Memᴰ.tail m)) i)
  ]

-- Why the agent of a runner may be swapped; `rows` are the runners that GitHub listed.
pub record MaySwap (opts : Opts) (rows : List RunnerWithOrg) (org name : Text) : Type 0 where
  pub not_dry : opts.dry_run ≡ false
  pub row : RunnerWithOrg
  pub is_listed : Memᴰ row rows
  pub same_org : row.org ≡ org
  pub same_name : row.runner.name ≡ name
  pub is_local : row.local ≡ true
  pub not_minted : has_prefix row.runner.name (codes "srm-eph-") ≡ false
  pub in_org : (opts.org_filter ≡ []) ⊎ (row.org ≡ opts.org_filter)
  pub in_selection : (opts.only ≡ []) ⊎ Memᴰ (runner_ref row.org row.runner.name) opts.only
  pub not_busy : row.runner.busy ≡ false

abbrev pub IsAllowed : Opts → List RunnerWithOrg → Event → Type 0
IsAllowed opts rows (saved m) = Unit {0}
IsAllowed opts rows (swapped org name dl) = MaySwap opts rows org name

module _ (h : Host) (opts : Opts) (target : Text) where
  IsAllowed-step :
      (rows : List RunnerWithOrg) (row : RunnerWithOrg)
      → Memᴰ row rows
      → Keeps h opts target (λ s. All (IsAllowed opts rows) s.log) row
  unfolding save_after
  IsAllowed-step rows row m s e i = elim (upgrade_one_persistent-OneOutcome h opts target row s).1 [
    | inl o ↦ elim (Bool-cases opts.dry_run) [
      | inl d ↦ simp d (rw o.same_log i)
      | inr d ↦ simp d (tt, rw o.same_log i)
    ]
    | inr (b, (rec, id, known, same, a, o)) ↦
        let (org, name) = (upgrade_one_persistent-OneOutcome h opts target row s).0 in
        simp o.not_dry (
          tt,
          rw o.one_swap (
            record {
              not_dry = o.not_dry;
              row = row;
              is_listed = m;
              same_org = sym org;
              same_name = sym name;
              is_local = in_scope-is_local opts row e;
              not_minted = in_scope-not_minted opts row e;
              in_org = in_scope-in_org opts row e;
              in_selection = in_scope-in_selection opts row e;
              not_busy = b;
            },
            i,
          ),
        )
  ]

  dry_step : (row : RunnerWithOrg) → opts.dry_run ≡ true → Keeps h opts target (λ s. s.log ≡ []) row
  unfolding save_after
  dry_step row d s e i = elim (upgrade_one_persistent-OneOutcome h opts target row s).1 [
    | inl o ↦ simp d (o.same_log ∙ i)
    | inr (b, (rec, id, known, same, a, o)) ↦ absurd (false≢true (sym o.not_dry ∙ d))
  ]

-- What holds of a whole pass: F, of its start if the pass ends early, or else since the loop keeps I.
module _ (w : World) (h : Host) (opts : Opts) (pin : Text) (I F : State → Type 0) where
  pub upgrade_local_runners-keeps :
      (loaded : Result StateManifest) (s : State)
      → ((row : RunnerWithOrg)
          → Memᴰ row (all_rows w w.org_names)
          → Keeps h opts (target_version opts pin) I row)
      → ((s' : State) → I s' → F (last_save opts s'))
      → F s
      → ((st : StateManifest) → loaded ≡ ok st → I (start st s))
      → F (upgrade_local_runners w h opts pin loaded s).1
  unfolding upgrade_local_runners
  upgrade_local_runners-keeps loaded s step last early first =
      unless_unknown
        (not (text_eq opts.org_filter [])
          && not (any_of (λ org. text_eq org opts.org_filter) w.org_names))
        (loaded_pass w h opts pin loaded s) (through loaded refl)
    where
      unless_unknown :
          (b : Bool) (out : Report × State)
          → F out.1
          → F (if b then (([], not_configured ∷ []), s) else out).1
      unless_unknown true out k = early
      unless_unknown false out k = k

      through : (l : Result StateManifest) → loaded ≡ l → F (loaded_pass w h opts pin l s).1
      through (err e) p = unfold loaded_pass in early
      through (ok st) p =
          unfold loaded_pass run_pass in
          last _ (
            upgrade_persistent-keeps h opts (target_version opts pin) I (all_rows w w.org_names)
              (start st s) step (first st p))

module _ (w : World) (h : Host) (opts : Opts) (pin : Text) (loaded : Result StateManifest)
    (s : State) where
  -- In a pass that starts with no event, an agent is swapped only if the pass is no dry run and the runner is
  -- one of those that GitHub listed, idle in that list, on this host, of no minted name, in the org asked for
  -- and in the selection.
  pub upgrade_local_runners-IsAllowed :
      s.log ≡ []
      → All
          (IsAllowed opts (all_rows w w.org_names))
          (upgrade_local_runners w h opts pin loaded s).1.log
  upgrade_local_runners-IsAllowed e =
      upgrade_local_runners-keeps w h opts pin Allowed Allowed loaded s
        (IsAllowed-step h opts (target_version opts pin) (all_rows w w.org_names)) last (rw e tt)
        (λ st p. rw e tt)
    where
      Allowed : State → Type 0
      Allowed s' = All (IsAllowed opts (all_rows w w.org_names)) s'.log

      last :
          (s' : State)
          → All (IsAllowed opts (all_rows w w.org_names)) s'.log
          → All (IsAllowed opts (all_rows w w.org_names)) (last_save opts s').log
      last s' k = elim (Bool-cases opts.dry_run) [
        | inl d ↦ unfold last_save in simp d k
        | inr d ↦ unfold last_save in simp d (tt, k)
      ]

  -- A dry run that starts with no event swaps nothing and saves nothing.
  upgrade_local_runners-dry :
      s.log ≡ [] → opts.dry_run ≡ true → (upgrade_local_runners w h opts pin loaded s).1.log ≡ []
  upgrade_local_runners-dry e d =
      upgrade_local_runners-keeps w h opts pin (λ s'. s'.log ≡ []) (λ s'. s'.log ≡ []) loaded s
        (λ row m. dry_step h opts (target_version opts pin) row d)
        (λ s' k. unfold last_save in simp d k) e (λ st p. e)
