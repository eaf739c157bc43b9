-- ===== src/Service/Lifecycle/Access.antt =====
-- What the operations begin with: requireOrg and client (internal/service/manager.go), the groups and the
-- download of internal/service/deploy.go, the defaults of internal/service/ephemeral.go, and
-- applyProfileDefaults of internal/service/profiles.go.
use srm.Prelude.{
  ℕ, zero, suc, Bool, true, false, ◌&&◌, not, Option, none, some, List, [], ◌∷◌, ◌++◌,
  if◌then◌else◌, find_first, Text, codes, text_eq,
}
use srm.Prelude.Int.{ℤ, pos, negsuc, ltb_ℤ, eqb_ℤ}
use srm.Core.{RunnerProfile}
use srm.Config.{Config, OrgConfig, org}
use srm.Service.Upgrade.Model.{Download}
use srm.Service.Lifecycle.Model.{
  Group, RunnerDownload, no_org, not_configured, no_client, no_profile, wrong_nature, no_groups,
  not_grouped, no_downloads, no_download, Call, Result, ok, err, Op, ◌>>=◌, ◌>>◌, pure, guard,
  or_raise, ask, query, act, attempt,
}

abbrev pub is_some : Option OrgConfig → Bool
is_some none = false
is_some (some oc) = true

abbrev pub is_configured : Text → Config → Bool
is_configured name c = is_some (org c name)

unfoldable pub require_org : Text → Op (Unit {0})
require_org name = do
  guard (not (text_eq name [])) no_org
  known ← ask (is_configured name)
  guard known not_configured

-- The client of an org, which a failure leaves unbuilt
unfoldable pub client : Text → Op (Unit {0})
client name = do built ← query (λ w t. w.has_client t name); guard built no_client

unfoldable pub list_groups : Text → Op (List Group)
list_groups name = do
  require_org name
  client name
  groups ← query (λ w t. w.list_groups t name)
  or_raise groups no_groups

-- CreateGroup
unfoldable pub create_group : Text → Text → Text → Op Group
create_group name group visibility = do
  require_org name
  let shown = if text_eq visibility [] then codes "all" else visibility
  dry ← ask (λ c. c.dry_run)
  if dry then pure (record { id = pos 0; name = group; visibility = shown }) else (do
    client name
    made ←
        act (Call.create_group name group shown)
          (λ w t. w.group_reply t (Call.create_group name group shown))
    or_raise made not_grouped)

abbrev named : Text → List Group → Option Group
named name = find_first (λ g. text_eq g.name name)

abbrev pub or_create : Text → Text → Option Group → Op Group
or_create name group (some g) = pure g
or_create name group none = create_group name group (codes "all")

unfoldable pub get_or_create_group : Text → Text → Op Group
get_or_create_group name group = do
  require_org name
  groups ← list_groups name
  or_create name group (named group groups)

abbrev pub default_group_number : ℤ
default_group_number = pos 1

abbrev name_of : ℤ → Result (List Group) → Text
name_of id (err e) = []
name_of id (ok groups) = elim (find_first (λ (g : Group). eqb_ℤ g.id id) groups) [
  | none ↦ []
  | some g ↦ g.name
]

-- groupNameByID
unfoldable pub group_name_by_id : Text → ℤ → Op Text
group_name_by_id name id =
    if not (ltb_ℤ default_group_number id)
    then pure []
    else (do groups ← attempt (list_groups name); pure (name_of id groups))

abbrev asset_os : Text
asset_os = codes "linux"

abbrev suits : RunnerDownload → Bool
suits d = text_eq d.os asset_os && text_eq d.arch (codes "x64")

-- agentDownload
unfoldable pub agent_download : Text → Op Download
agent_download name = do
  client name
  answer ← query (λ w t. w.list_downloads t name)
  ds ← or_raise answer no_downloads
  d ← or_raise (find_first suits ds) no_download
  pure (record { url = d.url; sha256 = d.sha256 })

-- defaultLabels
unfoldable pub default_labels : Text → Config → List Text
default_labels name c = elim (org c name) [ none ↦ [] | some oc ↦ oc.default_labels ]

pub record DeploySpec : Type 0 where
  pub org : Text
  pub count : ℤ
  pub name_prefix : Text
  pub labels : List Text
  pub group : Text
  pub group_id : ℤ
  pub profile : Text

abbrev pub is_empty : List Text → Bool
is_empty [] = true
is_empty (x ∷ xs) = false

-- The profile of an org by its name
unfoldable pub profile_of : Text → Text → Config → Option RunnerProfile
profile_of name profile c = elim (org c name) [
  | none ↦ none
  | some oc ↦ find_first (λ p. text_eq p.name profile) oc.profiles
]

-- The fields that the caller left empty are the profile's.
unfoldable pub seed : DeploySpec → RunnerProfile → DeploySpec
seed spec p = record spec {
  labels = if is_empty spec.labels then p.labels else spec.labels;
  group_id =
      if text_eq spec.group [] && (eqb_ℤ spec.group_id (pos 0) && ltb_ℤ (pos 0) (pos p.group_id))
      then pos p.group_id
      else spec.group_id;
}

abbrev pub same : Bool → Bool → Bool
same true b = b
same false b = not b

unfoldable pub apply_profile_defaults : Text → DeploySpec → Bool → Op DeploySpec
unfolding seed
apply_profile_defaults org spec want_ephemeral = if text_eq spec.profile [] then pure spec else (do
  found ← ask (profile_of org spec.profile)
  p ← or_raise found no_profile
  guard (same p.ephemeral want_ephemeral) wrong_nature
  pure (seed spec p))

-- `if spec.Count < 1 { spec.Count = 1 }`
abbrev pub at_least_one : ℤ → ℕ
at_least_one (pos zero) = 1
at_least_one (pos (suc n)) = suc n
at_least_one (negsuc n) = 1

unfoldable pub with_labels : Text → DeploySpec → Config → DeploySpec
unfolding default_labels
with_labels org spec c =
    if is_empty spec.labels then record spec { labels = default_labels org c } else spec

abbrev pub org_url : Text → Text
org_url name = codes "https://github.com/" ++ name
