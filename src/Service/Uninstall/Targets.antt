-- ===== src/Service/Uninstall/Targets.antt =====
-- uninstallBaseTargets of internal/service/uninstall.go, and installRootFor (internal/service/deploy.go).
use srm.Prelude.{
  Bool, ◌&&◌, not, Option, none, some, List, [], ◌∷◌, ◌++◌, any_of, if◌then◌else◌, Text, codes,
  text_eq,
}
use srm.Prelude.Strings.{has_prefix}
use srm.Config.{Config, OrgConfig, org, org_names}
use srm.Config.Users.{runner_user_for}
use srm.Config.Resources.{default_cache_root, default_tool_cache_root}

abbrev pub root_or_default : Option OrgConfig → Text
root_or_default none = codes "/opt/actions-runners"
root_or_default (some oc) =
    if text_eq oc.install_root [] then codes "/opt/actions-runners" else oc.install_root

-- installRootFor
unfoldable pub install_root_for : Config → Text → Text
install_root_for c name = root_or_default (org c name)

abbrev pub has : List Text → Text → Bool
has xs x = any_of (λ y. text_eq y x) xs

-- addUser and addPath
unfoldable pub add_user : Text → List Text → List Text
add_user name users =
    if has_prefix name (codes "srm") && not (has users name) then users ++ name ∷ [] else users

unfoldable pub add_path : Text → List Text → List Text
add_path path paths =
    if not (text_eq path []) && not (has paths path) then paths ++ path ∷ [] else paths

pub record BaseTargets : Type 0 where
  pub users : List Text
  pub paths : List Text

abbrev pub below : Text → Text → Text
below root name = root ++ b'/' ∷ name

-- The user and the caches of an org that has its own
unfoldable pub add_private : Config → Text → BaseTargets → BaseTargets
unfolding add_user add_path
add_private c name t = record {
  users = add_user (runner_user_for c name) t.users;
  paths =
      add_path (below default_tool_cache_root name)
        (add_path (below default_cache_root name) t.paths);
}

unfoldable pub add_private_all : Config → List Text → BaseTargets → BaseTargets
unfolding add_private
add_private_all c [] t = t
add_private_all c (name ∷ names) t = add_private_all c names (add_private c name t)

unfoldable pub add_roots : Config → List Text → List Text → List Text
unfolding install_root_for add_path
add_roots c [] paths = paths
add_roots c (name ∷ names) paths = add_roots c names (add_path (install_root_for c name) paths)

abbrev no_targets : BaseTargets
no_targets = record { users = []; paths = [] }

unfoldable pub full_targets : Config → BaseTargets
unfolding add_private_all add_roots
full_targets c =
    let t =
      if c.per_org_users
      then add_private_all c (org_names c) no_targets
      else record { users = add_user c.runner_user []; paths = add_path default_cache_root [] } in
    record t {
      paths =
          add_path (codes "/var/lib/srm")
            (add_roots c (org_names c) (add_path (codes "/opt/actions-runners") t.paths));
    }

unfoldable pub org_targets : Config → Text → BaseTargets
unfolding add_private install_root_for
org_targets c name =
    let t = if c.per_org_users then add_private c name no_targets else no_targets in
    record t {
      paths =
          add_path (below (codes "/var/lib/srm/ephemeral") name)
            (add_path (below (install_root_for c name) name) t.paths);
    }

-- uninstallBaseTargets
unfoldable pub base_targets : Config → Text → BaseTargets
unfolding full_targets org_targets
base_targets c name = if text_eq name [] then full_targets c else org_targets c name
