-- ===== src/Examples/Manifest.antt =====
-- Two runners of one org, recorded, changed and saved.
use srm.Prelude.{◌≡◌, ◌≢◌, ◌⊎◌, refl, none, some, [], ◌∷◌, All, if◌then◌else◌, Text, codes, text_eq}
use srm.Service.Manifest.{
  Kind, persistent, ephemeral, RunnerRecord, StateManifest, matches, get, put, remove,
}
use srm.Service.Manifest.Laws.{
  get-put, HasUniqueKeys, created, upserted, forgotten, apply_all, apply_all-HasUniqueKeys,
}
use srm.Service.Manifest.Disk.{
  errno, save_failed, ok, Disk, Faults, stamp, load_state, save, mutate_state,
}
use srm.Service.Manifest.Disk.Atomic.{
  IsWhole, final, save-IsWhole, save_outcome, load_state-file, load_state-mutate_state,
}
use srm.Examples.Json.{json, unmarshal-marshal}

abbrev pub runner : Kind → Text → Text → RunnerRecord
runner kind name at = record {
  kind = kind;
  org = codes "acme";
  name = name;
  github_runner_id = 7;
  agent_version = codes "2.335.1";
  previous_version = [];
  template_version = 1;
  configured_at = at;
  last_upgrade_at = [];
}

abbrev pub ci : RunnerRecord
ci = runner persistent (codes "ci") (codes "2026-01-01")

abbrev pub lane : RunnerRecord
lane = runner ephemeral (codes "1") []

abbrev pub two : StateManifest
two = record { state_version = 1; runners = ci ∷ lane ∷ [] }

get-put_example :
    get (put two (record ci { github_runner_id = 9 })) ephemeral (codes "acme") (codes "1") ≡ (
      if matches (record ci { github_runner_id = 9 }) ephemeral (codes "acme") (codes "1")
      then some (record ci { github_runner_id = 9 })
      else get two ephemeral (codes "acme") (codes "1"))
get-put_example =
    get-put two (record ci { github_runner_id = 9 }) ephemeral (codes "acme") (codes "1")

found : get two persistent (codes "acme") (codes "ci") ≡ some ci
unfolding get matches text_eq
found = refl

two_keys : HasUniqueKeys two.runners
unfolding matches text_eq
two_keys = ((refl, tt), (tt, tt))

apply_all-HasUniqueKeys_example :
    HasUniqueKeys
      (apply_all two (
        upserted ci
        ∷ created (codes "2026-02-02") lane
        ∷ forgotten persistent (codes "acme") (codes "ci")
        ∷ upserted ci
        ∷ [])).runners
apply_all-HasUniqueKeys_example =
    apply_all-HasUniqueKeys two
      (upserted ci
        ∷ created (codes "2026-02-02") lane
        ∷ forgotten persistent (codes "acme") (codes "ci")
        ∷ upserted ci
        ∷ [])
      two_keys

abbrev disk : Disk
disk = record { file = some (json.marshal two); unreadable = none; temp = none }

abbrev smooth : Faults
smooth = record {
  mkdir_all = none;
  create_temp = none;
  chmod = none;
  write = none;
  written = [];
  sync = none;
  close = none;
  rename = none;
  remove = none;
}

abbrev full : Faults
full = record smooth { write = some (errno 28); written = 1 ∷ [] }

abbrev forget_ci : StateManifest → StateManifest
forget_ci m = remove m persistent (codes "acme") (codes "ci")

save-IsWhole_example :
    All
      (IsWhole disk (json.marshal (stamp (forget_ci two))))
      (save json full (forget_ci two) disk).1
save-IsWhole_example = save-IsWhole json full (forget_ci two) disk

save_outcome_example :
    ((save json full (forget_ci two) disk).0 ≡ none)
      × ((final disk (save json full (forget_ci two) disk)).file
          ≡ some (json.marshal (stamp (forget_ci two))))
      × ((final disk (save json full (forget_ci two) disk)).temp ≡ none)
    ⊎ ((save json full (forget_ci two) disk).0 ≢ none)
      × ((final disk (save json full (forget_ci two) disk)).file ≡ disk.file)
      × (((final disk (save json full (forget_ci two) disk)).temp ≡ none) ⊎ (full.remove ≢ none))
save_outcome_example = save_outcome json full (forget_ci two) disk refl

loaded : load_state json disk ≡ ok two
loaded = load_state-file json disk two (json.marshal two) refl refl (unmarshal-marshal two)

changed : (mutate_state json smooth forget_ci disk).0 ≡ none
unfolding mutate_state save
changed = rw loaded refl

load_state-mutate_state_example :
    load_state json (mutate_state json smooth forget_ci disk).1 ≡ ok (stamp (forget_ci two))
load_state-mutate_state_example =
    load_state-mutate_state json smooth forget_ci disk two unmarshal-marshal refl loaded changed

refused : (mutate_state json full forget_ci disk).0 ≡ some (save_failed (errno 28))
unfolding mutate_state save
refused = rw loaded refl
