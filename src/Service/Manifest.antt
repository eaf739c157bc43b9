-- ===== src/Service/Manifest.antt =====
-- The host state manifest: internal/service/state.go. The disk operations are in Service/Manifest/Disk.antt.
pub mod Laws
pub mod Disk
use srm.Prelude.{
  ℕ, zero, suc, ◌+◌, ◌≡◌, refl, Bool, true, false, ◌&&◌, not, Option, none, some, List, [], ◌∷◌,
  ◌++◌, ◌==◌, if◌then◌else◌, keep, find_first, Text, text_eq, codes,
}

abbrev pub current_state_version : ℕ
current_state_version = 1

-- KindPersistent and KindEphemeral
pub data Kind : Type 0 where
  persistent ephemeral : Kind

abbrev pub kind_eq : Kind → Kind → Bool
kind_eq persistent persistent = true
kind_eq ephemeral ephemeral = true
kind_eq _ _ = false

-- The GitHub id 0 and the empty version stand for "unknown", as in the source.
pub record RunnerRecord : Type 0 where
  pub kind : Kind
  pub org : Text
  pub name : Text
  pub github_runner_id : ℕ
  pub agent_version : Text
  pub previous_version : Text
  pub template_version : ℕ
  pub configured_at : Text
  pub last_upgrade_at : Text

pub record StateManifest : Type 0 where
  pub state_version : ℕ
  pub runners : List RunnerRecord

unfoldable pub matches : RunnerRecord → Kind → Text → Text → Bool
matches rs kind org name = kind_eq rs.kind kind && text_eq rs.org org && text_eq rs.name name

get_runners : List RunnerRecord → Kind → Text → Text → Option RunnerRecord
get_runners [] kind org name = none
get_runners (rs ∷ runners) kind org name =
    let rest = get_runners runners kind org name in
    if matches rs kind org name then some rs else rest

unfoldable pub get : StateManifest → Kind → Text → Text → Option RunnerRecord
unfolding get_runners
get m kind org name = get_runners m.runners kind org name

put_runners : RunnerRecord → List RunnerRecord → List RunnerRecord
put_runners rs [] = rs ∷ []
put_runners rs (r ∷ runners) =
    let rest = put_runners rs runners in
    if matches r rs.kind rs.org rs.name then rs ∷ runners else r ∷ rest

unfoldable pub put : StateManifest → RunnerRecord → StateManifest
unfolding put_runners
put m rs = record m { runners = put_runners rs m.runners }

remove_runners : List RunnerRecord → Kind → Text → Text → List RunnerRecord
remove_runners [] kind org name = []
remove_runners (rs ∷ runners) kind org name =
    let rest = remove_runners runners kind org name in
    if not (matches rs kind org name) then rs ∷ rest else rest

unfoldable pub remove : StateManifest → Kind → Text → Text → StateManifest
unfolding remove_runners
remove m kind org name = record m { runners = remove_runners m.runners kind org name }

-- What recordCreated does to the manifest; `now` is nowStamp().
abbrev stamped : RunnerRecord → Text → Option RunnerRecord → RunnerRecord
stamped rec now none =
    if text_eq rec.configured_at [] then record rec { configured_at = now } else rec
stamped rec now (some prev) =
    if not (text_eq prev.configured_at [])
    then record rec { configured_at = prev.configured_at }
    else if text_eq rec.configured_at []
    then record rec { configured_at = now }
    else rec

unfoldable pub put_created : Text → RunnerRecord → StateManifest → StateManifest
unfolding get put
put_created now rec st = put st (stamped rec now (get st rec.kind rec.org rec.name))

-- org + "\x00" + name
unfoldable pub runner_version_key : Text → Text → Text
runner_version_key org name = org ++ 0 ∷ name

-- out[key] = version
set_version : Text → Text → List (Text × Text) → List (Text × Text)
set_version key version [] = (key, version) ∷ []
set_version key version ((k, v) ∷ out) =
    let rest = set_version key version out in
    if text_eq k key then (key, version) ∷ out else (k, v) ∷ rest

versions_of : List RunnerRecord → List (Text × Text) → List (Text × Text)
unfolding set_version runner_version_key
versions_of [] out = out
versions_of (rec ∷ runners) out = versions_of runners (
    if kind_eq rec.kind persistent && not (text_eq rec.agent_version [])
    then set_version (runner_version_key rec.org rec.name) rec.agent_version out
    else out)

-- The loop of LocalRunnerVersions, over the manifest that was read
unfoldable pub local_runner_versions : StateManifest → List (Text × Text)
unfolding versions_of
local_runner_versions st = versions_of st.runners []

-- The version that a caller finds under a key.
unfoldable pub version_at : Text → List (Text × Text) → Option Text
version_at key [] = none
version_at key ((k, v) ∷ out) =
    let rest = version_at key out in if text_eq k key then some v else rest
