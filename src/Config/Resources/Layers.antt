-- ===== src/Config/Resources/Layers.antt =====
-- Which layer each limit comes from.
use srm.Prelude.{
  ◌≡◌, Bool, Option, none, some, List, [], ◌∷◌, if◌then◌else◌, arith, Text, text_eq, text_eq_iff,
  codes, true, false,
}
use srm.Config.{ResourceLimits, OrgConfig, Config, org}
use srm.Config.Load.{no_limits, resource_mode_auto}
use srm.Config.Resources.{
  merge, auto_resource_limits, host_limits, merge_org, override, resources_for,
}

-- The first text that is set
abbrev pub first_set : List Text → Text
first_set [] = []
first_set (t ∷ texts) = if text_eq t [] then first_set texts else t

abbrev pub org_layer : Option OrgConfig → ResourceLimits
org_layer none = no_limits
org_layer (some oc) = oc.resources

abbrev pub auto_layer : Config → ResourceLimits
auto_layer c =
    if text_eq c.resource_mode resource_mode_auto then auto_resource_limits else no_limits

-- The limits of the org, of the host and of the automatic mode, in this order
abbrev pub layers : Config → Text → (ResourceLimits → Text) → List Text
layers c name field = field (org_layer (org c name)) ∷ field c.resources ∷ field (auto_layer c) ∷ []

-- Overlaying limits is associative.
pub merge_assoc : (r o p : ResourceLimits) → merge (merge r o) p ≡ merge r (merge o p)
unfolding merge
merge_assoc r o p = ground arith

-- One limit
one_limit :
    (mode : Bool) (auto host own : Text)
    → override (if mode then override auto host else host) own
      ≡ first_set (own ∷ host ∷ (if mode then auto else []) ∷ [])
one_limit mode auto host own =
    ground (arith, text_eq_iff own [], text_eq_iff host [], text_eq_iff auto [])

abbrev layered : Bool → ResourceLimits → ResourceLimits → (ResourceLimits → Text) → Text
layered mode host own field =
    first_set (field own ∷ field host ∷ (if mode then field auto_resource_limits else []) ∷ [])

-- All of them, over a host and an org's layer
all_limits :
    (mode : Bool) (host own : ResourceLimits)
    → merge (if mode then merge auto_resource_limits host else host) own ≡ record {
      memory_high = layered mode host own (λ r. r.memory_high);
      memory_max = layered mode host own (λ r. r.memory_max);
      memory_swap_max = layered mode host own (λ r. r.memory_swap_max);
      cpu_weight = layered mode host own (λ r. r.cpu_weight);
      tasks_max = layered mode host own (λ r. r.tasks_max);
    }
unfolding merge
all_limits true host own = λ i. record {
  memory_high = one_limit true (codes "20%") host.memory_high own.memory_high i;
  memory_max = one_limit true (codes "25%") host.memory_max own.memory_max i;
  memory_swap_max = one_limit true (codes "0") host.memory_swap_max own.memory_swap_max i;
  cpu_weight = one_limit true [] host.cpu_weight own.cpu_weight i;
  tasks_max = one_limit true [] host.tasks_max own.tasks_max i;
}
all_limits false host own = λ i. record {
  memory_high = one_limit false (codes "20%") host.memory_high own.memory_high i;
  memory_max = one_limit false (codes "25%") host.memory_max own.memory_max i;
  memory_swap_max = one_limit false (codes "0") host.memory_swap_max own.memory_swap_max i;
  cpu_weight = one_limit false [] host.cpu_weight own.cpu_weight i;
  tasks_max = one_limit false [] host.tasks_max own.tasks_max i;
}

abbrev mode_layer : Bool → ResourceLimits
mode_layer mode = if mode then auto_resource_limits else no_limits

abbrev layers_of : Bool → ResourceLimits → Option OrgConfig → (ResourceLimits → Text) → Text
layers_of mode host own field =
    first_set (field (org_layer own) ∷ field host ∷ field (mode_layer mode) ∷ [])

with_org :
    (mode : Bool) (host : ResourceLimits) (own : Option OrgConfig)
    → merge_org (if mode then merge auto_resource_limits host else host) own ≡ record {
      memory_high = layers_of mode host own (λ r. r.memory_high);
      memory_max = layers_of mode host own (λ r. r.memory_max);
      memory_swap_max = layers_of mode host own (λ r. r.memory_swap_max);
      cpu_weight = layers_of mode host own (λ r. r.cpu_weight);
      tasks_max = layers_of mode host own (λ r. r.tasks_max);
    }
unfolding merge_org merge text_eq
with_org true host none = all_limits true host no_limits
with_org true host (some oc) = all_limits true host oc.resources
with_org false host none = all_limits false host no_limits
with_org false host (some oc) = all_limits false host oc.resources

-- Each limit of an org is the first one that is set: by the org, by the host, by the automatic mode.
resources_for-first_set :
    (c : Config) (name : Text)
    → resources_for c name ≡ record {
      memory_high = first_set (layers c name (λ r. r.memory_high));
      memory_max = first_set (layers c name (λ r. r.memory_max));
      memory_swap_max = first_set (layers c name (λ r. r.memory_swap_max));
      cpu_weight = first_set (layers c name (λ r. r.cpu_weight));
      tasks_max = first_set (layers c name (λ r. r.tasks_max));
    }
unfolding resources_for host_limits
resources_for-first_set c name =
    with_org (text_eq c.resource_mode resource_mode_auto) c.resources (org c name)
