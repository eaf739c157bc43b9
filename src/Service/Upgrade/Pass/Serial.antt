-- ===== src/Service/Upgrade/Pass/Serial.antt =====
-- When the upgrade pass saves the manifest, and what it writes.
use srm.Prelude.{ℕ, ◌≡◌, refl, sym, ◌∙◌, [], List, ◌∷◌, Bool-cases, inl, inr, Text, ◌⊎◌, arith}
use srm.Service.Manifest.{RunnerRecord, StateManifest, put}
use srm.Service.Manifest.Disk.{ok}
use srm.Service.Reconcile.Model.{RunnerWithOrg, World}
use srm.Service.Upgrade.Model.{Opts, UpgradeResult, Event, swapped, saved, Host, State}
use srm.Service.Upgrade.{save_after}
use srm.Service.Upgrade.Laws.{IsRecordOf, record_key, upgrade_one_persistent-OneOutcome}
use srm.Service.Upgrade.Laws.Outcomes.{WasSwapped}
use srm.Service.Upgrade.Pass.{target_version, start, last_save, upgrade_local_runners}
use srm.Service.Upgrade.Pass.Swaps.{Keeps, upgrade_local_runners-keeps}

-- The manifest that the last save of a log wrote, or `st` if there is none; the last event comes first.
abbrev pub last_saved : StateManifest → List Event → StateManifest
last_saved st [] = st
last_saved st (saved m ∷ log) = m
last_saved st (swapped org name dl ∷ log) = last_saved st log

-- The manifest is as before, or has a new entry for that runner.
abbrev pub IsNext : Host → Text → Text → StateManifest → StateManifest → Type 0
IsNext h org name m m' =
    (m' ≡ m)
    ⊎ ((entry : RunnerRecord) × (entry.org ≡ org)
        × (entry.name ≡ name)
        × (entry.last_upgrade_at ≡ h.now_stamp)
        × (m' ≡ put m entry))

-- Every swap is followed by a save before the next swap. A save that follows a swap writes the manifest of
-- the save before it, or that one with a new entry for the runner that was swapped; any other save writes
-- the manifest of the save before it.
abbrev pub IsSerial : Host → StateManifest → List Event → Type 0
IsSerial h st [] = Unit {0}
IsSerial h st (swapped org name dl ∷ log) = ⊥
IsSerial h st (saved m ∷ []) = m ≡ st
IsSerial h st (saved m ∷ saved m' ∷ log) = (m ≡ m') × IsSerial h st (saved m' ∷ log)
IsSerial h st (saved m ∷ swapped org name dl ∷ log) =
    IsNext h org name (last_saved st log) m × IsSerial h st log

-- A save that follows no swap
IsSerial-saved :
    (h : Host) (st : StateManifest) (log : List Event) (m : StateManifest)
    → IsSerial h st log
    → m ≡ last_saved st log
    → IsSerial h st (saved m ∷ log)
IsSerial-saved h st [] m k e = e
IsSerial-saved h st (saved m' ∷ log) m k e = (e, k)
IsSerial-saved h st (swapped org name dl ∷ log) m k e = elim k [ ]

module _ (h : Host) (opts : Opts) (target : Text) where
  -- What the log tells between two rounds
  abbrev Serial : StateManifest → State → Type 0
  Serial st s = IsSerial h st s.log × (last_saved st s.log ≡ s.manifest)

  entry-IsNext :
      (row : RunnerWithOrg) (rec : RunnerRecord) (id : ℕ) (s s' : State) (res : UpgradeResult)
      → IsRecordOf s row rec
      → WasSwapped h opts row rec id s s' res
      → IsNext h row.org row.runner.name s.manifest s'.manifest
  entry-IsNext row rec id s s' res known o = elim o.recorded [
    | inr (u, same) ↦ inl same
    | inl (u, (entry, i, put)) ↦
        let (org, name) = record_key s row rec known in
        inr (entry, i.same_org ∙ org, i.same_name ∙ name, i.last_upgrade, put)
  ]

  IsSerial-step : (st : StateManifest) (row : RunnerWithOrg) → Keeps h opts target (Serial st) row
  unfolding save_after
  IsSerial-step st row s e (i, at) =
      elim (upgrade_one_persistent-OneOutcome h opts target row s).1 [
        | inl o ↦ elim (Bool-cases opts.dry_run) [
          | inl d ↦ simp d (rw (o.same_log, o.same_manifest) (i, at))
          | inr d ↦
              simp d
                (rw o.same_log (IsSerial-saved h st s.log _ i (o.same_manifest ∙ sym at)), refl)
        ]
        | inr (b, (rec, id, known, same, a, o)) ↦
            let (org, name) = (upgrade_one_persistent-OneOutcome h opts target row s).0 in
            simp o.not_dry
              (rw (o.one_swap, at, org, name) (entry-IsNext row rec id s _ _ known o, i), refl)
      ]

-- In a pass that starts with no event and has loaded the manifest `st`, a save is tried after every swap
-- and before the next one. What it writes is what the save before it wrote, `st` at first, or that with
-- a new entry for the runner just swapped; a save that follows no swap writes the same again; and the last
-- one, if there is any, writes the manifest that the pass ends with.
pub upgrade_local_runners-IsSerial :
    (w : World) (h : Host) (opts : Opts) (pin : Text) (st : StateManifest) (s : State)
    → s.log ≡ []
    → IsSerial h st (upgrade_local_runners w h opts pin (ok st) s).1.log
      × (((upgrade_local_runners w h opts pin (ok st) s).1.log ≡ [])
          ⊎ (last_saved st (upgrade_local_runners w h opts pin (ok st) s).1.log
              ≡ (upgrade_local_runners w h opts pin (ok st) s).1.manifest))
upgrade_local_runners-IsSerial w h opts pin st s e =
    upgrade_local_runners-keeps w h opts pin (Serial h opts (target_version opts pin) st) Final
      (ok st) s (λ row m. IsSerial-step h opts (target_version opts pin) st row) last
      (rw e tt, inl e) first
  where
    Final : State → Type 0
    Final s' = IsSerial h st s'.log × ((s'.log ≡ []) ⊎ (last_saved st s'.log ≡ s'.manifest))

    last : (s' : State) → Serial h opts (target_version opts pin) st s' → Final (last_save opts s')
    last s' (k, at) = elim (Bool-cases opts.dry_run) [
      | inl d ↦ unfold last_save in simp d (k, inr at)
      | inr d ↦ unfold last_save in simp d (IsSerial-saved h st s'.log _ k (sym at), inr refl)
    ]

    first :
        (st' : StateManifest)
        → ok st ≡ ok st'
        → Serial h opts (target_version opts pin) st (start st' s)
    first st' p = (rw e tt, rw e (ground (arith, p)))
