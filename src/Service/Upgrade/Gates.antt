-- ===== src/Service/Upgrade/Gates.antt =====
-- idMismatchSkip and versionGateSkip: the tests on ids and versions.
use srm.Prelude.{
  ◌≡◌, ◌≢◌, ◌⊎◌, ◌↔◌, true, false, text_eq_iff, arith, ℕ, Bool, ◌&&◌, not, [], ◌==◌, if◌then◌else◌,
  Text, text_eq,
}
use srm.Prelude.Int.{pos, ltb_ℤ}
use srm.Runner.Versions.{compare_versions}
use srm.Service.Upgrade.Model.{Skip, no_skip, id_mismatch, at_target, older_target}

unfoldable pub id_mismatch_skip : ℕ → ℕ → Skip
id_mismatch_skip recorded_id live_id =
    if not (recorded_id == 0) && (not (live_id == 0) && not (recorded_id == live_id))
    then id_mismatch live_id recorded_id
    else no_skip

unfoldable pub version_gate_skip : Text → Text → Bool → Bool → Skip
version_gate_skip from to force rollback =
    if not force && (not (text_eq from []) && text_eq from to)
    then at_target to
    else if not force
        && (not rollback
            && (not (text_eq from [])
                && (not (text_eq to []) && ltb_ℤ (compare_versions to from) (pos 0))))
    then older_target to from
    else no_skip

-- The version gate opens exactly if the upgrade is forced, or the installed version is unknown, or the
-- target is another version that is not older, is unknown, or is rolled back to.
pub version_gate_skip-eq_no_skip :
    (from to : Text) (force rollback : Bool)
    → (version_gate_skip from to force rollback ≡ no_skip) ↔ (
        (force ≡ true)
        ⊎ (from ≡ [])
        ⊎ (from ≢ to)
          × ((rollback ≡ true) ⊎ (to ≡ []) ⊎ (ltb_ℤ (compare_versions to from) (pos 0) ≡ false)))
unfolding version_gate_skip
version_gate_skip-eq_no_skip from to force rollback =
    ground (arith, text_eq_iff from [], text_eq_iff to [], text_eq_iff from to)
