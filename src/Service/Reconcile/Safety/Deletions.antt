-- ===== src/Service/Reconcile/Safety/Deletions.antt =====
-- The loop over the runners that GitHub listed deletes ghosts only.
use srm.Prelude.{
  codes, text_eq_iff, ◌≢◌, suc, ◌≡◌, refl, inl, inr, Bool, true, false, ◌&&◌, ◌||◌, not, Option,
  none, some, List, [], ◌∷◌, arith, if◌then◌else◌, Bool-cases, Option-cases, All, All-append, Memᴰ,
  Text,
}
use srm.Core.{Runner, online}
use srm.Runner.Names.{is_ephemeral_runner_name, ephemeral_slot_from_name}
use srm.Service.Reconcile.Model.{RunnerWithOrg, Action, delete_runner, World, Pass, tick}
use srm.Service.Reconcile.Github.{filtered_out}
use srm.Service.Reconcile.Units.{seen}
use srm.Service.Reconcile.Ghosts.{
  reap_ghost, in_flight, reap_slot, maybe_reap_ghost, github_step, github_only,
}
use srm.Service.Reconcile.Safety.{IsInOrg, IsGhost, IsExplained, IsJustified}
use srm.Service.Reconcile.Safety.Lookup.{filtered_out-IsInOrg}
use srm.Service.Reconcile.Safety.Rows.{plain-IsExplained}

-- A predicate on the changes that a step makes holds of its whole log, if it held before.
module _ (w : World) (P : Action → Type 0) where
  reap_ghost-All :
      (row : RunnerWithOrg) (dry_run : Bool) (p : Pass)
      → (dry_run ≡ false → P (delete_runner row.org row.runner.id))
      → All P p.log
      → All P (reap_ghost w row dry_run p).1.log
  unfolding reap_ghost
  reap_ghost-All row true p may h = h
  reap_ghost-All row false p may h = elim (Option-cases (w.client_error row.org)) [
    | inl c ↦ rw c (may refl, h)
    | inr (x, c) ↦ rw c h
  ]

  reap_slot-All :
      (row : RunnerWithOrg) (dry_run : Bool) (named : Option Text) (p : Pass)
      → ((slot : Text)
          → named ≡ some slot
          → dry_run ≡ false
          → IsGhost w row.org slot row.runner.id
          → P (delete_runner row.org row.runner.id))
      → All P p.log
      → All P (reap_slot w row dry_run named p).1.log
  unfolding reap_slot
  reap_slot-All row dry_run none p may h = h
  reap_slot-All row dry_run (some slot) p may h =
      elim (Bool-cases (w.inspect_ephemeral p.now row.org slot).unit_exists) [
        | inr e ↦ rw e h
        | inl e ↦
            elim (Bool-cases (
              (w.inspect_ephemeral p.now row.org slot).active
              && in_flight (w.pending_jit (suc p.now) row.org slot) row.runner.id)) [
                | inl f ↦ rw e (rw f h)
                | inr f ↦ rw e (
                    rw f (
                      reap_ghost-All row dry_run
                        (if (w.inspect_ephemeral p.now row.org slot).active
                          then tick (tick p)
                          else tick p)
                        (λ d. may slot refl d (record {
                          time = p.now;
                          lane_here = e;
                          not_in_flight = ground (arith, f);
                        }))
                        (unmoved (w.inspect_ephemeral p.now row.org slot).active)))
              ]
      ]
    where
      unmoved : (b : Bool) → All P (if b then tick (tick p) else tick p).log
      unmoved true = h
      unmoved false = h

  github_step-All :
      (reap : Bool) (org_filter : Text) (dry_run : Bool) (units : List Text) (row : RunnerWithOrg)
      (p : Pass)
      → (reap ≡ true
          → dry_run ≡ false
          → IsInOrg org_filter row.org
          → is_ephemeral_runner_name row.runner.name ≡ true
          → online row.runner ≡ false
          → row.runner.busy ≡ false
          → (slot : Text) → ephemeral_slot_from_name row.runner.name row.org ≡ some slot
          → IsGhost w row.org slot row.runner.id
          → P (delete_runner row.org row.runner.id))
      → All P p.log
      → All P (github_step w reap org_filter dry_run units row p).2.log
  unfolding github_step maybe_reap_ghost
  github_step-All reap org_filter dry_run units row p may h =
      elim (Bool-cases
        (filtered_out org_filter row.org || seen w org_filter units row.org row.runner.name)) [
          | inl e ↦ rw e h
          | inr e ↦ elim (Bool-cases (is_ephemeral_runner_name row.runner.name)) [
            | inl m ↦ elim (Bool-cases (reap && (not (online row.runner) && not row.runner.busy))) [
              | inl g ↦ rw e (
                  rw m (
                    rw g (
                      reap_slot-All row dry_run (ephemeral_slot_from_name row.runner.name row.org) p
                        (λ slot named dry ghost.
                          may (ground arith) dry
                            (filtered_out-IsInOrg org_filter row.org (ground (arith, e))) m
                            (ground arith) (ground arith) slot named ghost)
                        h)))
              | inr g ↦ rw e (rw m (rw g h))
            ]
            | inr m ↦ elim (Bool-cases (online row.runner && not row.local)) [
              | inl g ↦ rw e (rw m (rw g h))
              | inr g ↦ rw e (rw m (rw g h))
            ]
          ]
        ]

not_online : (r : Runner) → online r ≡ false → r.status ≢ codes "online"
unfolding online
not_online r h e = cc (h, (text_eq_iff r.status (codes "online")).1 e)

-- The loop over GitHub's runners deletes only ghosts, each a row of that list.
module _ (w : World) (fix reap : Bool) (org_filter : Text) (dry_run : Bool) (units : List Text)
    (rows : List RunnerWithOrg) where
  abbrev Justified : Action → Type 0
  Justified = IsJustified w fix reap org_filter dry_run rows

  github_step-Justified :
      (row : RunnerWithOrg) (p : Pass)
      → Memᴰ row rows
      → All Justified p.log
      → All Justified (github_step w reap org_filter dry_run units row p).2.log
  github_step-Justified row p m h =
      github_step-All w Justified reap org_filter dry_run units row p
        (λ asked dry org minted offline idle slot named ghost. record {
          asked = asked;
          not_dry = dry;
          row = row;
          is_listed = m;
          in_org = org;
          same_org = refl;
          same_id = refl;
          minted = unfold is_ephemeral_runner_name in minted;
          offline = not_online row.runner offline;
          not_busy = idle;
          slot = slot;
          named = named;
          is_ghost = ghost;
        })
        h

  pub github_only-Justified :
      (some_rows : List RunnerWithOrg) (p : Pass)
      → ((row : RunnerWithOrg) → Memᴰ row some_rows → Memᴰ row rows)
      → All Justified p.log
      → All Justified (github_only w reap org_filter dry_run units some_rows p).2.log
  unfolding github_only
  github_only-Justified [] p sub h = h
  github_only-Justified (row ∷ rest) p sub h =
      github_only-Justified rest (github_step w reap org_filter dry_run units row p).2
        (λ r m. sub r (Memᴰ.tail m)) (github_step-Justified row p (sub row (Memᴰ.head refl)) h)

  -- What that loop reports is left alone by the repair.
  github_step-IsExplained :
      (row : RunnerWithOrg) (p : Pass)
      → All (IsExplained w org_filter rows) (github_step w reap org_filter dry_run units row p).0
  unfolding github_step
  github_step-IsExplained row p =
      elim (Bool-cases
        (filtered_out org_filter row.org || seen w org_filter units row.org row.runner.name)) [
          | inl e ↦ rw e tt
          | inr e ↦ elim (Bool-cases (is_ephemeral_runner_name row.runner.name)) [
            | inl m ↦ elim (Bool-cases (reap && (not (online row.runner) && not row.runner.busy))) [
              | inl g ↦ rw e (rw m (rw g tt))
              | inr g ↦ rw e (rw m (rw g tt))
            ]
            | inr m ↦ elim (Bool-cases (online row.runner && not row.local)) [
              | inl g ↦ rw e (rw m (rw g tt))
              | inr g ↦ rw e (
                  rw m (
                    rw g (plain-IsExplained w org_filter rows _ (λ q. cc) (λ q. cc) (λ q. cc), tt)))
            ]
          ]
        ]

  pub github_only-IsExplained :
      (some_rows : List RunnerWithOrg) (p : Pass)
      → All
          (IsExplained w org_filter rows)
          (github_only w reap org_filter dry_run units some_rows p).0
  unfolding github_only
  github_only-IsExplained [] p = tt
  github_only-IsExplained (row ∷ rest) p =
      let p' = (github_step w reap org_filter dry_run units row p).2 in
      All-append (IsExplained w org_filter rows)
        (github_step w reap org_filter dry_run units row p).0
        (github_only w reap org_filter dry_run units rest p').0 (github_step-IsExplained row p)
        (github_only-IsExplained rest p')
