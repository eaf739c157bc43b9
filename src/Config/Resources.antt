-- ===== src/Config/Resources.antt =====
-- The cgroup limits and the cache roots of an org: merge, ResourcesFor, CacheRootFor, ToolCacheFor and
-- ToolCacheEnv of internal/config/config.go.
pub mod Layers
use srm.Prelude.{
  Bool, ◌||◌, ◌&&◌, not, Option, none, some, List, [], ◌∷◌, ◌++◌, if◌then◌else◌, Text, codes,
  text_eq,
}
use srm.Config.{ResourceLimits, OrgConfig, Config, org}
use srm.Config.Load.{no_limits, resource_mode_auto}

abbrev pub override : Text → Text → Text
override old new = if not (text_eq new []) then new else old

-- r.merge(o)
unfoldable pub merge : ResourceLimits → ResourceLimits → ResourceLimits
merge r o = record {
  memory_high = override r.memory_high o.memory_high;
  memory_max = override r.memory_max o.memory_max;
  memory_swap_max = override r.memory_swap_max o.memory_swap_max;
  cpu_weight = override r.cpu_weight o.cpu_weight;
  tasks_max = override r.tasks_max o.tasks_max;
}

abbrev pub auto_resource_limits : ResourceLimits
auto_resource_limits = record {
  memory_high = codes "20%";
  memory_max = codes "25%";
  memory_swap_max = codes "0";
  cpu_weight = [];
  tasks_max = [];
}

abbrev pub auto_slice_memory_max : Text
auto_slice_memory_max = codes "75%"

-- The limits before those of the org
unfoldable pub host_limits : Config → ResourceLimits
unfolding merge
host_limits c =
    if text_eq c.resource_mode resource_mode_auto
    then merge auto_resource_limits c.resources
    else c.resources

merge_org : ResourceLimits → Option OrgConfig → ResourceLimits
unfolding merge
merge_org r none = r
merge_org r (some oc) = merge r oc.resources

unfoldable pub resources_for : Config → Text → ResourceLimits
unfolding merge_org host_limits
resources_for c name = merge_org (host_limits c) (org c name)

unfoldable pub slice_memory_max_or_default : Config → Text
slice_memory_max_or_default c =
    if not (text_eq c.slice_memory_max []) then c.slice_memory_max else auto_slice_memory_max

abbrev pub default_cache_root : Text
default_cache_root = codes "/opt/srm-cache"

abbrev pub default_tool_cache_root : Text
default_tool_cache_root = codes "/opt/hostedtoolcache"

-- filepath.Join of a root and the name of an org, which has no separator and is not "." or ".."
abbrev join : Text → Text → Text
join root name = root ++ b'/' ∷ name

unfoldable pub cache_root_for : Config → Text → Text
cache_root_for c name =
    if not c.per_org_users || text_eq name [] then [] else join default_cache_root name

unfoldable pub tool_cache_for : Config → Text → Text
tool_cache_for c name =
    if not c.per_org_users || text_eq name [] then [] else join default_tool_cache_root name

pub record EnvVar : Type 0 where
  pub key : Text
  pub val : Text

abbrev env_var : Text → Text → EnvVar
env_var key val = record { key = key; val = val }

abbrev pub tool_cache_env : Text → List EnvVar
tool_cache_env root =
    env_var (codes "npm_config_cache") (root ++ codes "/npm")
    ∷ env_var (codes "npm_config_store_dir") (root ++ codes "/pnpm")
    ∷ env_var (codes "YARN_CACHE_FOLDER") (root ++ codes "/yarn")
    ∷ env_var (codes "PIP_CACHE_DIR") (root ++ codes "/pip")
    ∷ env_var (codes "GOMODCACHE") (root ++ codes "/go/mod")
    ∷ env_var (codes "GOCACHE") (root ++ codes "/go/build")
    ∷ env_var (codes "CARGO_HOME") (root ++ codes "/cargo")
    ∷ env_var (codes "GRADLE_USER_HOME") (root ++ codes "/gradle")
    ∷ []
