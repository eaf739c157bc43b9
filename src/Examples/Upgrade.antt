-- ===== src/Examples/Upgrade.antt =====
-- An upgrade pass over one idle and one busy runner.
use srm.Prelude.{
  ℕ, ◌≡◌, ◌≢◌, ◌⊎◌, ◌↔◌, refl, Bool, true, false, none, some, List, [], ◌∷◌, All, Text, codes,
}
use srm.Prelude.Int.{pos, ltb_ℤ}
use srm.Runner.Versions.{download_url, compare_versions}
use srm.Service.Manifest.{persistent, RunnerRecord, StateManifest}
use srm.Service.Manifest.Disk.{ok}
use srm.Service.Reconcile.Model.{RunnerWithOrg}
use srm.Service.Reconcile.Github.{all_rows}
use srm.Service.Upgrade.Model.{no_skip, Opts, swapped_ok, Host, State}
use srm.Service.Upgrade.Gates.{version_gate_skip, version_gate_skip-eq_no_skip}
use srm.Service.Upgrade.Laws.{OneOutcome, upgrade_one_persistent-OneOutcome}
use srm.Service.Upgrade.Keys.{IsFor}
use srm.Service.Upgrade.{upgrade_one_persistent}
use srm.Service.Upgrade.Pass.{upgrade_local_runners}
use srm.Service.Upgrade.Pass.Serial.{last_saved, IsSerial, upgrade_local_runners-IsSerial}
use srm.Service.Upgrade.Pass.Swaps.{IsAllowed, upgrade_local_runners-IsAllowed}
use srm.Examples.Reconcile.{world}

abbrev acme : Text
acme = codes "acme"

abbrev row : ℕ → Text → Bool → RunnerWithOrg
row id name busy = record {
  org = acme;
  runner = record {
    id = id;
    name = name;
    os = codes "linux";
    status = codes "online";
    busy = busy;
    ephemeral = false;
    group_id = 1;
    version = [];
    labels = [];
  };
  local = true;
}

abbrev ci : RunnerRecord
ci = record {
  kind = persistent;
  org = acme;
  name = codes "ci";
  github_runner_id = 7;
  agent_version = codes "2.334.0";
  previous_version = [];
  template_version = 1;
  configured_at = codes "2026-01-01";
  last_upgrade_at = [];
}

abbrev manifest : StateManifest
manifest = record { state_version = 1; runners = ci ∷ [] }

abbrev host : Host
host = record {
  agent_id = λ org name. none;
  agent_download =
      λ time org. some (record { url = download_url (codes "2.335.1"); sha256 = codes "ab" });
  cached_agent_tarball = λ dl. true;
  get_runner_busy = λ time org id. some false;
  upgrade_runner_agent = λ time org name dl. swapped_ok;
  now_stamp = codes "2026-02-02";
}

abbrev opts : Opts
opts = record {
  org_filter = [];
  only = [];
  to_version = [];
  dry_run = false;
  force = false;
  rollback = false;
}

abbrev state : State
state = record { manifest = manifest; dl_cache = []; time = 0; log = [] }

version_gate_skip_example :
    (version_gate_skip (codes "2.335.1") (codes "2.334.0") false false ≡ no_skip) ↔ (
      (false ≡ true)
      ⊎ (codes "2.335.1" ≡ [])
      ⊎ (codes "2.335.1" ≢ codes "2.334.0")
        × ((false ≡ true)
            ⊎ (codes "2.334.0" ≡ [])
            ⊎ (ltb_ℤ (compare_versions (codes "2.334.0") (codes "2.335.1")) (pos 0) ≡ false)))
version_gate_skip_example =
    version_gate_skip-eq_no_skip (codes "2.335.1") (codes "2.334.0") false false

upgrade_one_persistent_example :
    IsFor acme (codes "ci") (upgrade_one_persistent host opts [] (row 7 (codes "ci") false) state).0
    × OneOutcome host opts
        (row 7 (codes "ci") false)
        state
        (upgrade_one_persistent host opts [] (row 7 (codes "ci") false) state)
upgrade_one_persistent_example =
    upgrade_one_persistent-OneOutcome host opts [] (row 7 (codes "ci") false) state

abbrev rows : List RunnerWithOrg
rows = row 7 (codes "ci") false ∷ row 8 (codes "old") true ∷ []

upgrade_local_runners-IsAllowed_example :
    All
      (IsAllowed opts (all_rows world world.org_names))
      (upgrade_local_runners world host opts [] (ok manifest) state).1.log
upgrade_local_runners-IsAllowed_example =
    upgrade_local_runners-IsAllowed world host opts [] (ok manifest) state refl

upgrade_local_runners-IsSerial_example :
    IsSerial host manifest (upgrade_local_runners world host opts [] (ok manifest) state).1.log
    × (((upgrade_local_runners world host opts [] (ok manifest) state).1.log ≡ [])
        ⊎ (last_saved manifest (upgrade_local_runners world host opts [] (ok manifest) state).1.log
            ≡ (upgrade_local_runners world host opts [] (ok manifest) state).1.manifest))
upgrade_local_runners-IsSerial_example =
    upgrade_local_runners-IsSerial world host opts [] manifest state refl
