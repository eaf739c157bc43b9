-- ===== src/Examples/Agent.antt =====
-- An agent with two payload directories: an upgrade that fails, and processes that die half way.
use srm.Prelude.{ℕ, zero, suc, ◌≡◌, refl, true, false, Option, none, some, List, [], ◌∷◌}
use srm.Runner.Agent.{
  Errno, errno, Dir, removed, left_over, Answers, rolled_back, snapshot_failed,
  recover_agent_snapshot, extract, swap_error, upgrade_runner_agent, snapshot_agent_payload,
  restore_agent_payload,
}
use srm.Runner.Agent.Snapshot.{IsComplete, aside, partial_tree}
use srm.Runner.Agent.Upgrade.{
  Settled, upgrade_runner_agent-extract-aside, snapshot_failure-leaves_gap,
}

abbrev tree : List Dir
tree = record { live = some 1; snapshot = none } ∷ record { live = some 2; snapshot = none } ∷ []

abbrev succeeds : ℕ → Option Errno
succeeds j = none

-- The new agent does not start.
abbrev answers : Answers
answers = record {
  unit_exists = true;
  is_configured = true;
  sha_is_empty = false;
  cached = true;
  ensure_tarball = none;
  recover_remove = λ j. removed;
  recover_rename = succeeds;
  stop = none;
  snapshot_remove = λ j. removed;
  snapshot_rename = succeeds;
  discard_remove = λ j. left_over 3;
  extracted = λ j. some 9;
  extract_error = none;
  chown = none;
  write_hardening = none;
  start = none;
  wait_active = some (errno 1);
  restore_remove = λ j. removed;
  restore_rename = succeeds;
}

tree-IsComplete : IsComplete tree
tree-IsComplete = ((λ e. cc), ((λ e. cc), tt))

rolls_back : upgrade_runner_agent answers tree ≡ (tree, some (rolled_back (errno 1)))
unfolding upgrade_runner_agent recover_agent_snapshot snapshot_agent_payload extract swap_error
    restore_agent_payload
rolls_back = refl

-- The process died with half of an agent extracted: the next upgrade rolls back to that half.
upgrade_runner_agent-extract-aside_example :
    Settled answers
      (partial_tree (λ j. 5) 0 tree)
      (upgrade_runner_agent answers (extract (λ j. some 5) 0 (aside tree)))
upgrade_runner_agent-extract-aside_example =
    upgrade_runner_agent-extract-aside answers (λ j. 5) tree
      (record {
        installed = refl;
        configured = refl;
        verifiable = refl;
        tarball = refl;
        stops = refl;
      })
      (record { taken = λ j. refl; put_back = λ j. refl }) (λ j. refl) tree-IsComplete

abbrev second_fails : ℕ → Option Errno
second_fails zero = none
second_fails (suc j) = some (errno 5)

abbrev answers_gap : Answers
answers_gap = record answers { snapshot_rename = second_fails }

snapshot_failure-leaves_gap_example : upgrade_runner_agent answers_gap tree ≡ (
  record { live = none; snapshot = some 1 } ∷ record { live = some 2; snapshot = none } ∷ [],
  some (snapshot_failed (errno 5)),
)
snapshot_failure-leaves_gap_example =
    snapshot_failure-leaves_gap answers_gap 1 2 (errno 5)
      (record {
        installed = refl;
        configured = refl;
        verifiable = refl;
        tarball = refl;
        stops = refl;
      })
      refl refl
