-- ===== src/Examples/Config.antt =====
-- A configuration of two orgs with a service user each.
use srm.Prelude.{◌≡◌, ◌≢◌, refl, true, not, [], ◌∷◌, ◌++◌, Text, codes, text_eq}
use srm.Prelude.Int.{pos}
use srm.Prelude.Strings.{has_suffix}
use srm.Config.{OrgConfig, Config, org}
use srm.Config.Users.{slug, runner_user_for, valid_user_name}
use srm.Config.Users.Slugs.{valid_user_name-slug}
use srm.Config.Load.{
  loaded, refused, out_of_fuel, no_limits, resource_mode_auto, defaults, migrate,
  validate_isolation, File, overlay, load,
}
use srm.Config.Load.Checked.{IsChecked, load-IsChecked, load-ne-out_of_fuel}

abbrev org_config : Text → Text → OrgConfig
org_config name user = record {
  name = name;
  app_id = pos 1;
  installation_id = pos 2;
  private_key_path = [];
  default_group_id = pos 1;
  default_labels = [];
  install_root = [];
  runner_user = user;
  profiles = [];
  resources = record no_limits { memory_max = codes "2G" };
}

abbrev two_orgs : Config → Config
two_orgs c = record c {
  orgs = org_config (codes "acme") [] ∷ org_config (codes "Beta_1") (codes "beta") ∷ [];
  concurrency = pos 0;
  resource_mode = resource_mode_auto;
  per_org_users = true;
}

abbrev file : File
file = overlay two_orgs

abbrev pub config : Config
config = record (two_orgs defaults) { schema_version = pos 1; concurrency = pos 8 }

loads : load file ≡ loaded config
unfolding load migrate validate_isolation runner_user_for org slug valid_user_name text_eq
    has_suffix
loads = refl

load-IsChecked_example : IsChecked config
load-IsChecked_example = load-IsChecked file config loads

load-ne-out_of_fuel_example : load file ≢ refused out_of_fuel
load-ne-out_of_fuel_example = load-ne-out_of_fuel file

valid_user_name-slug_example :
    valid_user_name (codes "srm-" ++ slug (codes "-Acme_EU."))
    ≡ not (text_eq (slug (codes "-Acme_EU.")) [])
valid_user_name-slug_example = valid_user_name-slug (codes "-Acme_EU.")

slugged : slug (codes "-Acme_EU.") ≡ codes "acme-eu"
unfolding slug
slugged = refl
