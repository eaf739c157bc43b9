-- ===== src/Service/Drift/Laws.antt =====
-- When a unit is in each class.
use srm.Prelude.{◌≡◌, ◌⊎◌, ◌↔◌, Bool, true, false, arith}
use srm.Service.Drift.{
  healthy, orphan_unit, stale_drop_in, stuck, ephemeral_slot, Inspection, EphemeralInspection,
  classify_persistent, classify_ephemeral,
}

module _ (insp : Inspection) (on_github listed online : Bool) where
  -- A persistent runner is called healthy exactly when it is registered, its tree is not at the flat
  -- path only, its drop-in conforms and is not of a newer template, its unit runs and GitHub sees it online.
  pub healthy_iff : ((classify_persistent insp on_github listed online).0 ≡ healthy) ↔ (
      (on_github ≡ true)
      × ((insp.has_flat_tree ≡ false) ⊎ (insp.has_tree ≡ true))
      × (insp.drop_in_newer ≡ false)
      × (insp.drop_in_ok ≡ true)
      × (insp.active ≡ true)
      × (online ≡ true))
  unfolding classify_persistent
  healthy_iff = ground arith

  -- A unit is called an orphan, which repair removes, exactly when GitHub's list of its org was read and
  -- does not have it.
  pub orphan_unit_iff :
      ((classify_persistent insp on_github listed online).0 ≡ orphan_unit)
      ↔ ((on_github ≡ false) × (listed ≡ true))
  unfolding classify_persistent
  orphan_unit_iff = ground arith

  -- A unit is called stale or stuck, which repair refreshes, only if it is registered and its drop-in is
  -- not of a newer template than this program's.
  pub refreshed_not_newer :
      ((classify_persistent insp on_github listed online).0 ≡ stale_drop_in)
        ⊎ ((classify_persistent insp on_github listed online).0 ≡ stuck)
      → (on_github ≡ true) × (insp.drop_in_newer ≡ false)
  unfolding classify_persistent
  refreshed_not_newer h = ground arith

-- A lane is called healthy exactly when its unit is not of a newer template, runs and conforms: the
-- number of restarts and the last result do not matter.
pub ephemeral_slot_iff :
    (insp : EphemeralInspection)
    → ((classify_ephemeral insp).0 ≡ ephemeral_slot)
      ↔ ((insp.unit_newer ≡ false) × (insp.active ≡ true) × (insp.unit_ok ≡ true))
unfolding classify_ephemeral
ephemeral_slot_iff insp = ground arith
