-- ===== src/Runner/Agent/Upgrade.antt =====
-- How UpgradeRunnerAgent leaves the tree.
use srm.Prelude.{
  ◌≢◌, ◌⊎◌, ℕ, ◌≡◌, refl, sym, ap, ◌∙◌, true, false, Option, none, some, List, [], ◌∷◌, arith,
}
use srm.Runner.Agent.{
  Errno, Dir, removed, Answers, UpgradeError, runner_down, snapshot_failed, snapshot_agent_payload,
  restore_agent_payload, recover_agent_snapshot, extract, swap_error, conclude, after_snapshot,
  stopped, fetched, upgrade_runner_agent,
}
use srm.Runner.Agent.Snapshot.{
  IsWhole, IsComplete, aside, Installed, discard-extract-aside, partial_tree, recover-extract-aside,
  partial_tree-IsWhole, partial_tree-IsComplete, snapshot-aside, restore-extract-snapshot,
}

-- Every rename of the snapshot and of the roll back succeeds.
pub record RenamesWork (a : Answers) : Type 0 where
  pub taken : (j : ℕ) → a.snapshot_rename j ≡ none
  pub put_back : (j : ℕ) → a.restore_rename j ≡ none

-- Every step behind the snapshot succeeded.
abbrev pub StepsWork : Answers → Type 0
StepsWork a =
    (a.extract_error ≡ none)
    × (a.chown ≡ none)
    × (a.write_hardening ≡ none)
    × (a.start ≡ none)
    × (a.wait_active ≡ none)

-- A check or a step failed.
abbrev pub HasFailed : Answers → Type 0
HasFailed a =
    (a.unit_exists ≡ false)
    ⊎ (a.is_configured ≡ false)
    ⊎ (a.sha_is_empty ≡ true) × (a.cached ≡ false)
    ⊎ (a.ensure_tarball ≢ none)
    ⊎ (a.stop ≢ none)
    ⊎ (a.extract_error ≢ none)
    ⊎ (a.chown ≢ none)
    ⊎ (a.write_hardening ≢ none)
    ⊎ (a.start ≢ none)
    ⊎ (a.wait_active ≢ none)

swap_error-StepsWork : (a : Answers) → swap_error a ≡ none → StepsWork a
unfolding swap_error
swap_error-StepsWork a h = ground (arith, h)

swap_error-HasFailed : (a : Answers) (e : Errno) → swap_error a ≡ some e → HasFailed a
unfolding swap_error
swap_error-HasFailed a e h = ground (arith, h)

-- The tree is as it was, with an error that does not say that the runner is down, and something failed; or
-- it is the extracted one, with no error.
abbrev pub Settled : Answers → List Dir → List Dir × Option UpgradeError → Type 0
Settled a dirs (after, some (runner_down e x)) = ⊥
Settled a dirs (after, some e) = (after ≡ dirs) × HasFailed a
Settled a dirs (after, none) = StepsWork a × Installed a.discard_remove a.extracted 0 dirs after

conclude-Settled :
    (a : Answers) (dirs : List Dir) (e : Option Errno)
    → RenamesWork a
    → IsWhole dirs
    → IsComplete dirs
    → swap_error a ≡ e
    → Settled a dirs (conclude a e (extract a.extracted 0 (aside dirs)))
unfolding conclude
conclude-Settled a dirs none r w c q =
    (swap_error-StepsWork a q, discard-extract-aside a.discard_remove a.extracted 0 dirs)
conclude-Settled a dirs (some e) r w c q =
    let back : restore_agent_payload a.restore_remove a.restore_rename 0
          (extract a.extracted 0 (aside dirs))
        ≡ (dirs, none) =
      ap
        (λ s. restore_agent_payload a.restore_remove a.restore_rename 0 (extract a.extracted 0 s.0))
        (sym (snapshot-aside a.snapshot_remove a.snapshot_rename 0 dirs r.taken w))
      ∙ restore-extract-snapshot a.snapshot_remove a.restore_remove a.snapshot_rename
          a.restore_rename a.extracted 0 dirs r.taken r.put_back w c in
    rw back (refl, swap_error-HasFailed a e q)

stopped-Settled :
    (a : Answers) (stop : Option Errno) (dirs : List Dir)
    → RenamesWork a
    → IsWhole dirs
    → IsComplete dirs
    → a.stop ≡ stop
    → Settled a dirs (stopped a stop dirs)
unfolding stopped after_snapshot
stopped-Settled a (some e) dirs r w c q = (refl, ground (arith, q))
stopped-Settled a none dirs r w c q =
    rw (snapshot-aside a.snapshot_remove a.snapshot_rename 0 dirs r.taken w)
      (conclude-Settled a dirs (swap_error a) r w c refl)

-- The host lets an upgrade come as far as the snapshot.
pub record ReachesSnapshot (a : Answers) : Type 0 where
  pub installed : a.unit_exists ≡ true
  pub configured : a.is_configured ≡ true
  pub verifiable : a.sha_is_empty ≡ false
  pub tarball : a.ensure_tarball ≡ none
  pub stops : a.stop ≡ none

-- If the first directory is set aside and the rename of the second fails, the upgrade ends with the
-- first directory missing, and with an error that does not say that the runner is down.
pub snapshot_failure-leaves_gap :
    (a : Answers) (bin externals : ℕ) (x : Errno)
    → ReachesSnapshot a
    → a.snapshot_rename 0 ≡ none
    → a.snapshot_rename 1 ≡ some x
    → upgrade_runner_agent a (
        record { live = some bin; snapshot = none }
        ∷ record { live = some externals; snapshot = none }
        ∷ [])
      ≡ (
        record { live = none; snapshot = some bin }
            ∷ record { live = some externals; snapshot = none }
            ∷ [],
        some (snapshot_failed x),
      )
unfolding upgrade_runner_agent fetched stopped after_snapshot snapshot_agent_payload
    recover_agent_snapshot
snapshot_failure-leaves_gap a bin externals x r first second = ground arith

-- If the process dies once the extraction has written to every payload directory, whole or half, and the
-- next upgrade comes as far as its own snapshot, with its renames and the removals of its recovery
-- succeeding, then that upgrade ends with the agent that it extracts, or, with an error, with what the
-- interrupted extraction left, in place of the agent from before.
pub upgrade_runner_agent-extract-aside :
    (a : Answers) (partial : ℕ → ℕ) (dirs : List Dir)
    → ReachesSnapshot a
    → RenamesWork a
    → ((j : ℕ) → a.recover_remove j ≡ removed)
    → IsComplete dirs
    → Settled a
        (partial_tree partial 0 dirs)
        (upgrade_runner_agent a (extract (λ j. some (partial j)) 0 (aside dirs)))
unfolding upgrade_runner_agent fetched
upgrade_runner_agent-extract-aside a partial dirs r works ok c =
    simp
      (
        r.installed,
        r.configured,
        r.verifiable,
        r.tarball,
        r.stops,
        recover-extract-aside a.recover_remove a.recover_rename partial 0 dirs ok c,
      )
      (stopped-Settled a none (partial_tree partial 0 dirs) works
        (partial_tree-IsWhole partial 0 dirs) (partial_tree-IsComplete partial 0 dirs) r.stops)
