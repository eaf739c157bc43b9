-- ===== src/Runner/Agent.antt =====
-- UpgradeRunnerAgent of internal/runner/orchestrator.go and the snapshot that it rolls back to. The
-- payload directories (bin/, externals/) are a list; what a directory holds is a number. The error of
-- os.RemoveAll is ignored everywhere, but what it leaves is modelled.
pub mod Snapshot
pub mod Upgrade
use srm.Prelude.{
  ℕ, zero, suc, Bool, true, false, ◌&&◌, not, Option, none, some, List, [], ◌∷◌, if◌then◌else◌,
  ◌==◌,
}

pub data Errno : Type 0 where
  errno : ℕ → Errno

abbrev pub Payload : Type 0
Payload = ℕ

-- A payload directory `sub` and its snapshot `sub`.srm-prev
pub record Dir : Type 0 where
  pub live : Option Payload
  pub snapshot : Option Payload

-- What os.RemoveAll of a directory leaves: nothing, or if it fails some of what was there.
pub data Removal : Type 0 where
  removed : Removal
  left_over : Payload → Removal

-- Where there is nothing, there is nothing to fail.
abbrev pub remove_all : Removal → Option Payload → Option Payload
remove_all r none = none
remove_all removed (some p) = none
remove_all (left_over q) (some p) = some q

-- One round of snapshotAgentPayload: its removal, and its rename, which answers `e`.
snapshot_dir : Removal → Option Errno → Dir → Dir × Option Errno
snapshot_dir r e d =
    let bak = remove_all r d.snapshot in
    elim d.live [
      | none ↦ (record d { snapshot = bak }, none)
      | some old ↦ elim e [
        | some x ↦ (record d { snapshot = bak }, some x)
        | none ↦ (record { live = none; snapshot = some old }, none)
      ]
    ]

-- The loop stops at the first rename that fails. `removes i` and `renames i` are the answers to the calls
-- for directory i.
snapshot_rest : List Dir → List Dir × Option Errno → Dir × Option Errno → List Dir × Option Errno
snapshot_rest dirs rest (d, some x) = (d ∷ dirs, some x)
snapshot_rest dirs rest (d, none) = (d ∷ rest.0, rest.1)

unfoldable pub snapshot_agent_payload :
    (ℕ → Removal) → (ℕ → Option Errno) → ℕ → List Dir → List Dir × Option Errno
unfolding snapshot_dir snapshot_rest
snapshot_agent_payload removes renames i [] = ([], none)
snapshot_agent_payload removes renames i (d ∷ dirs) =
    let rest = snapshot_agent_payload removes renames (suc i) dirs in
    snapshot_rest dirs rest (snapshot_dir (removes i) (renames i) d)

-- One round of restoreAgentPayload
restore_dir : Removal → Option Errno → Dir → Dir × Option Errno
restore_dir r e d = elim d.snapshot [
  | none ↦ (d, none)
  | some old ↦ elim e [
    | some x ↦ (record d { live = remove_all r d.live }, some x)
    | none ↦ (record { live = some old; snapshot = none }, none)
  ]
]

unfoldable pub restore_agent_payload :
    (ℕ → Removal) → (ℕ → Option Errno) → ℕ → List Dir → List Dir × Option Errno
unfolding restore_dir snapshot_rest
restore_agent_payload removes renames i [] = ([], none)
restore_agent_payload removes renames i (d ∷ dirs) =
    let rest = restore_agent_payload removes renames (suc i) dirs in
    snapshot_rest dirs rest (restore_dir (removes i) (renames i) d)

unfoldable pub discard_agent_snapshot : (ℕ → Removal) → ℕ → List Dir → List Dir
discard_agent_snapshot removes i [] = []
discard_agent_snapshot removes i (d ∷ dirs) =
    record d { snapshot = remove_all (removes i) d.snapshot }
    ∷ discard_agent_snapshot removes (suc i) dirs

-- One round of recoverAgentSnapshot; `e` is the answer to its rename, which is ignored.
recover_dir : Removal → Option Errno → Dir → Dir
recover_dir r e d = elim d.snapshot [
  | none ↦ d
  | some old ↦ elim d.live [
    | some new ↦ record d { snapshot = remove_all r d.snapshot }
    | none ↦ elim e [ some x ↦ d | none ↦ record { live = some old; snapshot = none } ]
  ]
]

unfoldable pub recover_agent_snapshot : (ℕ → Removal) → (ℕ → Option Errno) → ℕ → List Dir → List Dir
unfolding recover_dir
recover_agent_snapshot removes renames i [] = []
recover_agent_snapshot removes renames i (d ∷ dirs) =
    recover_dir (removes i) (renames i) d ∷ recover_agent_snapshot removes renames (suc i) dirs

-- Extraction leaves `extracted i` in directory i, whether it succeeds or fails half way.
unfoldable pub extract : (ℕ → Option Payload) → ℕ → List Dir → List Dir
extract extracted i [] = []
extract extracted i (d ∷ dirs) = record d { live = extracted i } ∷ extract extracted (suc i) dirs

-- What the host answers during one upgrade.
pub record Answers : Type 0 where
  pub unit_exists : Bool
  pub is_configured : Bool
  pub sha_is_empty : Bool
  pub cached : Bool
  pub ensure_tarball : Option Errno
  pub recover_remove : ℕ → Removal
  pub recover_rename : ℕ → Option Errno
  pub stop : Option Errno
  pub snapshot_remove : ℕ → Removal
  pub snapshot_rename : ℕ → Option Errno
  pub discard_remove : ℕ → Removal
  pub extracted : ℕ → Option Payload
  pub extract_error : Option Errno
  pub chown : Option Errno
  pub write_hardening : Option Errno
  pub start : Option Errno
  pub wait_active : Option Errno
  pub restore_remove : ℕ → Removal
  pub restore_rename : ℕ → Option Errno

pub data UpgradeError : Type 0 where
  no_unit not_configured unverifiable : UpgradeError
  tarball_failed stop_failed snapshot_failed : Errno → UpgradeError
  -- "upgrade failed and was rolled back to the prior agent"
  rolled_back : Errno → UpgradeError
  -- wraps ErrRunnerDown
  runner_down : Errno → Errno → UpgradeError

-- The first error of the steps that follow the extraction.
abbrev pub or_else : Option Errno → Option Errno → Option Errno
or_else (some e) later = some e
or_else none later = later

unfoldable pub swap_error : Answers → Option Errno
swap_error a =
    or_else a.extract_error
      (or_else a.chown (or_else a.write_hardening (or_else a.start a.wait_active)))

abbrev restored : Errno → List Dir × Option Errno → List Dir × Option UpgradeError
restored e (dirs, none) = (dirs, some (rolled_back e))
restored e (dirs, some x) = (dirs, some (runner_down e x))

-- The swap's error, if any, and the tree with the extracted payload.
conclude : Answers → Option Errno → List Dir → List Dir × Option UpgradeError
conclude a none dirs = (discard_agent_snapshot a.discard_remove 0 dirs, none)
conclude a (some e) dirs =
    restored e (restore_agent_payload a.restore_remove a.restore_rename 0 dirs)

after_snapshot : Answers → List Dir × Option Errno → List Dir × Option UpgradeError
unfolding conclude
after_snapshot a (dirs, some e) = (dirs, some (snapshot_failed e))
after_snapshot a (dirs, none) = conclude a (swap_error a) (extract a.extracted 0 dirs)

-- The rest of the upgrade, once `systemctl stop` has answered.
stopped : Answers → Option Errno → List Dir → List Dir × Option UpgradeError
unfolding after_snapshot
stopped a (some e) dirs = (dirs, some (stop_failed e))
stopped a none dirs =
    after_snapshot a (snapshot_agent_payload a.snapshot_remove a.snapshot_rename 0 dirs)

fetched : Answers → Option Errno → List Dir → List Dir × Option UpgradeError
unfolding stopped
fetched a (some e) dirs = (dirs, some (tarball_failed e))
fetched a none dirs =
    stopped a a.stop (recover_agent_snapshot a.recover_remove a.recover_rename 0 dirs)

unfoldable pub upgrade_runner_agent : Answers → List Dir → List Dir × Option UpgradeError
unfolding fetched
upgrade_runner_agent a dirs =
    if not a.unit_exists
    then (dirs, some no_unit)
    else if not a.is_configured
    then (dirs, some not_configured)
    else if a.sha_is_empty && not a.cached
    then (dirs, some unverifiable)
    else fetched a a.ensure_tarball dirs
