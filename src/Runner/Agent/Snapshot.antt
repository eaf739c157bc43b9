-- ===== src/Runner/Agent/Snapshot.antt =====
-- Taking a snapshot and rolling it back.
use srm.Prelude.{
  ◌⊎◌, inl, inr, ℕ, zero, suc, ◌≡◌, ◌≢◌, refl, ap, ◌∙◌, Option, none, some, List, [], ◌∷◌, arith,
  All,
}
use srm.Runner.Agent.{
  Errno, Dir, Removal, removed, left_over, remove_all, snapshot_agent_payload,
  restore_agent_payload, discard_agent_snapshot, recover_agent_snapshot, extract,
}

-- No upgrade is under way: there is no snapshot.
abbrev pub IsWhole : List Dir → Type 0
IsWhole = All (λ d. d.snapshot ≡ none)

-- What snapshotAgentPayload makes of a whole tree if every rename succeeds.
abbrev pub aside : List Dir → List Dir
aside [] = []
aside (d ∷ dirs) = record { live = none; snapshot = d.live } ∷ aside dirs

pub snapshot-aside :
    (removes : ℕ → Removal) (renames : ℕ → Option Errno) (i : ℕ) (dirs : List Dir)
    → ((j : ℕ) → renames j ≡ none)
    → IsWhole dirs
    → snapshot_agent_payload removes renames i dirs ≡ (aside dirs, none)
unfolding snapshot_agent_payload
snapshot-aside removes renames i [] ok w = refl
snapshot-aside removes renames i (d ∷ dirs) ok w =
    ground (arith, ok i, w.0, snapshot-aside removes renames (suc i) dirs ok w.1)

-- A directory that was missing stays as the extraction left it; every other one is as before.
abbrev pub rolled : (ℕ → Option ℕ) → ℕ → List Dir → List Dir
rolled extracted i [] = []
rolled extracted i (d ∷ dirs) =
    elim d.live [
      | some old ↦ record { live = some old; snapshot = none }
      | none ↦ record { live = extracted i; snapshot = none }
    ]
    ∷ rolled extracted (suc i) dirs

restore-extract-aside :
    (removes : ℕ → Removal) (renames : ℕ → Option Errno) (extracted : ℕ → Option ℕ) (i : ℕ)
    (dirs : List Dir)
    → ((j : ℕ) → renames j ≡ none)
    → restore_agent_payload removes renames i (extract extracted i (aside dirs))
      ≡ (rolled extracted i dirs, none)
unfolding restore_agent_payload extract
restore-extract-aside removes renames extracted i [] ok = refl
restore-extract-aside removes renames extracted i (d ∷ dirs) ok =
    ground (arith, ok i, restore-extract-aside removes renames extracted (suc i) dirs ok)

-- Every payload directory is there.
abbrev pub IsComplete : List Dir → Type 0
IsComplete = All (λ d. d.live ≢ none)

rolled_self :
    (extracted : ℕ → Option ℕ) (i : ℕ) (dirs : List Dir)
    → IsWhole dirs
    → IsComplete dirs
    → rolled extracted i dirs ≡ dirs
rolled_self extracted i [] w c = refl
rolled_self extracted i (d ∷ dirs) w c =
    ground (arith, w.0, c.0, rolled_self extracted (suc i) dirs w.1 c.1)

-- Snapshot, any extraction, and roll back give the tree as it was.
pub restore-extract-snapshot :
    (clears drops : ℕ → Removal) (snapshots restores : ℕ → Option Errno) (extracted : ℕ → Option ℕ)
    (i : ℕ) (dirs : List Dir)
    → ((j : ℕ) → snapshots j ≡ none)
    → ((j : ℕ) → restores j ≡ none)
    → IsWhole dirs
    → IsComplete dirs
    → restore_agent_payload drops restores i
        (extract extracted i (snapshot_agent_payload clears snapshots i dirs).0)
      ≡ (dirs, none)
restore-extract-snapshot clears drops snapshots restores extracted i dirs sok rok w c =
    ap (λ s. restore_agent_payload drops restores i (extract extracted i s.0))
      (snapshot-aside clears snapshots i dirs sok w)
    ∙ restore-extract-aside drops restores extracted i dirs rok
    ∙ ap (λ s. (s, none)) (rolled_self extracted i dirs w c)

pub recover-IsWhole :
    (removes : ℕ → Removal) (renames : ℕ → Option Errno) (i : ℕ) (dirs : List Dir)
    → IsWhole dirs
    → recover_agent_snapshot removes renames i dirs ≡ dirs
unfolding recover_agent_snapshot
recover-IsWhole removes renames i [] w = refl
recover-IsWhole removes renames i (d ∷ dirs) w =
    ground (arith, w.0, recover-IsWhole removes renames (suc i) dirs w.1)

-- A tree while the snapshot is being taken: the first directories are set aside, the rest is untouched.
abbrev pub aside_first : ℕ → List Dir → List Dir
aside_first zero dirs = dirs
aside_first (suc k) [] = []
aside_first (suc k) (d ∷ dirs) = record { live = none; snapshot = d.live } ∷ aside_first k dirs

-- If the process dies while the snapshot is taken, after any number of renames, the next upgrade's
-- recovery gives back a whole tree as it was.
recover-aside_first :
    (removes : ℕ → Removal) (renames : ℕ → Option Errno) (k i : ℕ) (dirs : List Dir)
    → ((j : ℕ) → renames j ≡ none)
    → IsWhole dirs
    → recover_agent_snapshot removes renames i (aside_first k dirs) ≡ dirs
unfolding recover_agent_snapshot
recover-aside_first removes renames zero i dirs ok w = recover-IsWhole removes renames i dirs w
recover-aside_first removes renames (suc k) i [] ok w = refl
recover-aside_first removes renames (suc k) i (d ∷ dirs) ok w =
    ground (arith, w.0, ok i, recover-aside_first removes renames k (suc i) dirs ok w.1)

-- What the extraction left, with no snapshot beside it
abbrev pub partial_tree : (ℕ → ℕ) → ℕ → List Dir → List Dir
partial_tree partial i [] = []
partial_tree partial i (d ∷ dirs) =
    record { live = some (partial i); snapshot = none } ∷ partial_tree partial (suc i) dirs

-- Recovery drops every snapshot beside which the extraction left something.
pub recover-extract-aside :
    (removes : ℕ → Removal) (renames : ℕ → Option Errno) (partial : ℕ → ℕ) (i : ℕ) (dirs : List Dir)
    → ((j : ℕ) → removes j ≡ removed)
    → IsComplete dirs
    → recover_agent_snapshot removes renames i (extract (λ j. some (partial j)) i (aside dirs))
      ≡ partial_tree partial i dirs
unfolding recover_agent_snapshot extract
recover-extract-aside removes renames partial i [] ok c = refl
recover-extract-aside removes renames partial i (d ∷ dirs) ok c =
    ground (arith, c.0, ok i, recover-extract-aside removes renames partial (suc i) dirs ok c.1)

pub partial_tree-IsWhole :
    (partial : ℕ → ℕ) (i : ℕ) (dirs : List Dir) → IsWhole (partial_tree partial i dirs)
partial_tree-IsWhole partial i [] = tt
partial_tree-IsWhole partial i (d ∷ dirs) = (refl, partial_tree-IsWhole partial (suc i) dirs)

pub partial_tree-IsComplete :
    (partial : ℕ → ℕ) (i : ℕ) (dirs : List Dir) → IsComplete (partial_tree partial i dirs)
partial_tree-IsComplete partial i [] = tt
partial_tree-IsComplete partial i (d ∷ dirs) =
    ((λ e. cc), partial_tree-IsComplete partial (suc i) dirs)

-- A directory after an upgrade that succeeded: it is the extracted one, and a snapshot is left only if its
-- removal failed.
abbrev pub Installed : (ℕ → Removal) → (ℕ → Option ℕ) → ℕ → List Dir → List Dir → Type 0
Installed removes extracted i [] [] = Unit {0}
Installed removes extracted i (d ∷ dirs) (after ∷ afters) =
    ((after.live ≡ extracted i) × ((after.snapshot ≡ none) ⊎ (removes i ≢ removed)))
    × Installed removes extracted (suc i) dirs afters
Installed removes extracted i dirs afters = ⊥

remove_all-left : (r : Removal) (p : Option ℕ) → (remove_all r p ≡ none) ⊎ (r ≢ removed)
remove_all-left r none = inl refl
remove_all-left removed (some p) = inl refl
remove_all-left (left_over q) (some p) = inr (λ e. cc)

pub discard-extract-aside :
    (removes : ℕ → Removal) (extracted : ℕ → Option ℕ) (i : ℕ) (dirs : List Dir)
    → Installed removes extracted i dirs
        (discard_agent_snapshot removes i (extract extracted i (aside dirs)))
unfolding discard_agent_snapshot extract
discard-extract-aside removes extracted i [] = tt
discard-extract-aside removes extracted i (d ∷ dirs) = (
  (refl, remove_all-left (removes i) d.live),
  discard-extract-aside removes extracted (suc i) dirs,
)
