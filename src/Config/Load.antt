-- ===== src/Config/Load.antt =====
-- migrate, Load and validateIsolation of internal/config/config.go.
pub mod Checked
use srm.Prelude.{
  ℕ, zero, suc, Bool, true, false, ◌&&◌, ◌||◌, not, Option, none, some, List, [], ◌∷◌,
  if◌then◌else◌, Text, codes, text_eq,
}
use srm.Prelude.Int.{ℤ, pos, negsuc, ltb_ℤ, eqb_ℤ}
use srm.Config.{ResourceLimits, OrgConfig, Config}
use srm.Config.Users.{runner_user_for, valid_user_name}

-- The error texts, with the values printed into them; `out_of_fuel` is none of the source's.
pub data LoadError : Type 0 where
  unreadable unparsable no_stat out_of_fuel : LoadError
  newer_schema no_migration : ℤ → LoadError
  bad_resource_mode : Text → LoadError
  invalid_user : Text → Text → LoadError
  shared_user : Text → Text → Text → LoadError

pub data Loaded : Type 0 where
  loaded : Config → Loaded
  refused : LoadError → Loaded

abbrev pub current_schema_version : ℤ
current_schema_version = pos 1

abbrev pub default_runner_version : Text
default_runner_version = codes "2.335.1"

abbrev pub default_runner_user : Text
default_runner_user = codes "srm"

abbrev pub resource_mode_auto : Text
resource_mode_auto = codes "auto"

abbrev pub no_limits : ResourceLimits
no_limits = record {
  memory_high = [];
  memory_max = [];
  memory_swap_max = [];
  cpu_weight = [];
  tasks_max = [];
}

abbrev pub defaults : Config
defaults = record {
  schema_version = pos 0;
  orgs = [];
  dry_run = false;
  concurrency = pos 8;
  runner_version = default_runner_version;
  runner_user = default_runner_user;
  runner_version_pin = [];
  log_file = [];
  cache_retention_days = pos 0;
  job_log_retention_days = pos 0;
  resources = no_limits;
  resource_mode = [];
  slice_memory_max = [];
  per_org_users = false;
  protect_proc = false;
  rootless_din_d = false;
  buildkit_image = [];
  host = record {
    apt_packages = [];
    setup_scripts = [];
    tool_cache_seeds = [];
    persistent_cache_paths = [];
  };
}

-- c.SchemaVersion++
abbrev next_version : ℤ → ℤ
next_version (pos n) = pos (suc n)
next_version (negsuc zero) = pos 0
next_version (negsuc (suc n)) = negsuc n

-- configMigrations: the step from version 0, which changes nothing
abbrev config_migration : ℤ → Option (Config → Config)
config_migration (pos zero) = some (λ c. c)
config_migration _ = none

abbrev stepped : (Config → Config) → Config → Config
stepped step c = let c' = step c in record c' { schema_version = next_version c'.schema_version }

-- The loop of migrate, with `fuel` rounds left
unfoldable pub migrate_loop : ℕ → Config → Loaded
migrate_loop zero c =
    if ltb_ℤ c.schema_version current_schema_version then refused out_of_fuel else loaded c
migrate_loop (suc fuel) c = elim (ltb_ℤ c.schema_version current_schema_version) [
  | false ↦ loaded c
  | true ↦ elim (config_migration c.schema_version) [
    | none ↦ refused (no_migration c.schema_version)
    | some step ↦ migrate_loop fuel (stepped step c)
  ]
]

-- One round is enough: there is one version below the current one.
unfoldable pub migrate : Config → Loaded
unfolding migrate_loop
migrate c =
    if ltb_ℤ current_schema_version c.schema_version
    then refused (newer_schema c.schema_version)
    else migrate_loop 1 c

-- userToOrg[u]
abbrev pub user_org : Text → List (Text × Text) → Option Text
user_org u [] = none
user_org u ((v, o) ∷ users) = if text_eq v u then some o else user_org u users

-- The loop of validateIsolation
unfoldable pub validate_orgs : Config → List (Text × Text) → List OrgConfig → Option LoadError
validate_orgs c users [] = none
validate_orgs c users (oc ∷ orgs) =
    let u = runner_user_for c oc.name in
    let rest = validate_orgs c ((u, oc.name) ∷ users) orgs in
    if not (valid_user_name u)
    then some (invalid_user oc.name u)
    else elim (user_org u users) [ some prev ↦ some (shared_user prev oc.name u) | none ↦ rest ]

unfoldable pub validate_isolation : Config → Option LoadError
unfolding validate_orgs
validate_isolation c = if not c.per_org_users then none else validate_orgs c [] c.orgs

abbrev is_positive : ℤ → Bool
is_positive n = ltb_ℤ (pos 0) n

-- The defaults that Load fills in
abbrev pub filled : Config → Config
filled c = record c {
  concurrency = if is_positive c.concurrency then c.concurrency else pos 8;
  runner_version = if text_eq c.runner_version [] then default_runner_version else c.runner_version;
  runner_user = if text_eq c.runner_user [] then default_runner_user else c.runner_user;
}

validated : Config → Option LoadError → Loaded
validated c none = loaded c
validated c (some e) = refused e

check_filled : Config → Loaded
unfolding validated
check_filled c =
    if not (text_eq c.resource_mode []) && not (text_eq c.resource_mode resource_mode_auto)
    then refused (bad_resource_mode c.resource_mode)
    else validated c (validate_isolation c)

check_migrated : Loaded → Loaded
unfolding check_filled
check_migrated (loaded c) = check_filled (filled c)
check_migrated (refused e) = refused e

-- The configuration file: absent, or not to be examined, read or parsed, or what koanf makes of the
-- defaults with it
pub data File : Type 0 where
  absent unexamined unread unparsed : File
  overlay : (Config → Config) → File

unfoldable pub load : File → Loaded
unfolding check_migrated
load absent = check_migrated (migrate defaults)
load unexamined = refused no_stat
load unread = refused unreadable
load unparsed = refused unparsable
load (overlay f) = check_migrated (migrate (f defaults))
