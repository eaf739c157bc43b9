-- ===== src/Service/Lifecycle/Allowed.antt =====
-- Which calls a command may make.
pub mod Runners
pub mod Lanes
use srm.Prelude.{
  ℕ, zero, suc, ◌≡◌, refl, Bool, true, false, not, Option, none, some, List, [], ◌∷◌, ◌++◌,
  if◌then◌else◌, All, Text, codes, text_eq, Bool-cases, inl, inr,
}
use srm.Prelude.Int.{ℤ, pos}
use srm.Config.{Config}
use srm.Service.Manifest.{RunnerRecord, Kind}
use srm.Service.Lifecycle.Model.{
  Failure, Call, Site, Trail, Result, ok, err, Op, go_on, ◌>>=◌, ◌>>◌, pure, raise, guard, or_raise,
  ask, query, act, call, record_created, forget, attempt, Group,
}
use srm.Service.Lifecycle.Access.{
  is_configured, require_org, client, list_groups, create_group, or_create, get_or_create_group,
  group_name_by_id, agent_download, DeploySpec, apply_profile_defaults, at_least_one, with_labels,
  org_url,
}
use srm.Service.Lifecycle.Rules.{
  Calls, Calls-pure, Calls-raise, Calls-guard, Calls-act, Calls-if, Calls-bind, Calls-bind_ask,
  Calls-bind_guard, Calls-bind_query, Calls-or_raise, Calls-query, Calls-ask, Calls-attempt,
  Calls-record_created, Calls-forget, calls_rules,
}
use srm.Service.Lifecycle.Quiet.{client-Calls, require_org-Calls, list_groups-Calls}
use srm.Service.Lifecycle.Runners.{dry_run}
use srm.Service.Lifecycle.Commands.{called_org}

-- A call is about the org, which is configured, and this is no dry run.
pub record IsAllowed (w : Site) (org : Text) (c : Call) : Type 0 where
  pub is_about : called_org c ≡ org
  pub is_known : is_configured org w.cfg ≡ true
  pub is_live : w.cfg.dry_run ≡ false

module _ (w : Site) (org : Text) where
  pub require_org-then :
      {B : Type 0} (g : Unit {0} → Op B)
      → (is_configured org w.cfg ≡ true → Calls w (IsAllowed w org) (g tt))
      → Calls w (IsAllowed w org) (require_org org >>= g)
  unfolding ◌>>=◌ require_org guard ask
  require_org-then g h = record {
    at = λ t k. elim (Bool-cases (text_eq org [])) [
      | inl e ↦ rw e k
      | inr e ↦ elim (Bool-cases (is_configured org w.cfg)) [
        | inl f ↦ rw e (rw f ((h f).at t k))
        | inr f ↦ rw e (rw f k)
      ]
    ];
  }

  pub act-Calls :
      {A : Type 0} (c : Call) (f : Site → ℕ → A)
      → is_configured org w.cfg ≡ true
      → w.cfg.dry_run ≡ false
      → called_org c ≡ org
      → Calls w (IsAllowed w org) (act c f)
  act-Calls c f k d e = Calls-act c f (record { is_about = e; is_known = k; is_live = d })

  -- The manifest is written like the rest.
  pub record_created-Calls :
      (rec : RunnerRecord)
      → is_configured org w.cfg ≡ true
      → w.cfg.dry_run ≡ false
      → rec.org ≡ org
      → Calls w (IsAllowed w org) (record_created rec)
  record_created-Calls rec k d e =
      Calls-record_created rec (record { is_about = e; is_known = k; is_live = d })

  pub forget-Calls :
      (kind : Kind) (name : Text)
      → is_configured org w.cfg ≡ true
      → w.cfg.dry_run ≡ false
      → Calls w (IsAllowed w org) (forget kind org name)
  forget-Calls kind name k d =
      Calls-forget kind org name (record { is_about = refl; is_known = k; is_live = d })

  pub live_only :
      {B : Type 0} (m n : Op B)
      → Calls w (IsAllowed w org) m
      → (w.cfg.dry_run ≡ false → Calls w (IsAllowed w org) n)
      → Calls w (IsAllowed w org) (dry_run >>= λ dry. if dry then m else n)
  live_only m n hm hn = Calls-bind_ask _ _ (Calls-if w.cfg.dry_run m n (λ _. hm) hn)

  pub create_group-Calls :
      (group visibility : Text) → Calls w (IsAllowed w org) (create_group org group visibility)
  unfolding create_group
  create_group-Calls group visibility = require_org-then _ (λ c. live_only _ _ (Calls-pure _) (λ d.
      Calls-bind _ _ (client-Calls org)
        (λ u. Calls-bind _ _ (act-Calls _ _ c d refl) (λ g. Calls-or_raise g _))))

  or_create-Calls :
      (group : Text) (o : Option Group) → Calls w (IsAllowed w org) (or_create org group o)
  or_create-Calls group none = create_group-Calls group (codes "all")
  or_create-Calls group (some g) = Calls-pure g

  pub get_or_create_group-Calls :
      (group : Text) → Calls w (IsAllowed w org) (get_or_create_group org group)
  unfolding get_or_create_group
  get_or_create_group-Calls group =
      search (calls_rules, require_org-Calls, list_groups-Calls, or_create-Calls)
