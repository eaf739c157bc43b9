-- ===== src/Service/Lifecycle/Additive/Lanes.antt =====
-- Creating lanes beside those that a host has: the whole operation.
use Prim.Native.Nat.{◌^◌}
use srm.Prelude.{
  ℕ, suc, ◌+◌, ◌<◌, ◌≡◌, ◌≢◌, refl, true, Option, none, some, List, [], ◌∷◌, ◌++◌, length, zero,
  All, arith, Bool-cases, Option-cases, inl, inr, if_both, if◌then◌else◌, Text, codes, text_eq,
  Lacks,
}
use srm.Prelude.Int.{ℤ, pos, negsuc, ltb_ℤ}
use srm.Config.{Config, OrgConfig, org_names}
use srm.Config
use srm.Service.UnitNames.{orgs_by_len}
use srm.Service.Upgrade.Model.{Download}
use srm.Service.Cycle.{default_group_id, group_or_one}
use srm.Service.Lifecycle.Model.{
  Call, Group, Site, Trail, Op, ◌>>=◌, pure, query, ask, or_raise, guard, act, call, record_created,
  ensure_slot, EphemeralSlotSpec,
}
use srm.Service.Lifecycle.Access.{
  create_group, or_create, get_or_create_group, DeploySpec, at_least_one, is_configured,
  require_org, client, apply_profile_defaults, seed, profile_of, same, is_empty, with_labels,
  agent_download,
}
use srm.Service.Lifecycle.Rules.{
  Calls, Calls-pure, Calls-act, Calls-if, Calls-bind, Calls-then, Calls-bind_ask,
  Calls-bind_or_raise, Calls-or_raise, Calls-record_created, calls_rules,
}
use srm.Service.Lifecycle.Quiet.{
  client-Calls, require_org-Calls, list_groups-Calls, agent_download-Calls,
}
use srm.Service.Lifecycle.Lanes.{
  occupied_by, occupied_ephemeral_slots, create_slots, lane_group, lane_spec, or_default,
  create_ephemeral_runners, slot_spec, ephemeral_record,
}
use srm.Service.Lifecycle.Runners.{dry_run}
use srm.Service.Lifecycle.Additive.{IsNew, allocated-IsNew, is_configured-mem}

-- A lane is made only for a slot that has no unit in a list that was read from the host, and with a group.
abbrev pub IsAdded : Site → Text → Call → Type 0
IsAdded w org (ensure_slot spec dl) =
    (spec.group_id ≢ pos 0)
    × ((t : ℕ) × (units : List Text) × (w.list_ephemeral_units t ≡ some units)
        × IsNew org units spec.slot)
IsAdded w org _ = Unit {0}

occupied-then :
    {B : Type 0} (w : Site) (Q : Call → Type 0) (org : Text) (g : List ℕ → Op B)
    → ((t : ℕ) (units : List Text)
        → w.list_ephemeral_units t ≡ some units
        → Calls w Q (g (occupied_by org (orgs_by_len (org_names w.cfg)) units)))
    → Calls w Q (occupied_ephemeral_slots org >>= g)
unfolding occupied_ephemeral_slots ◌>>=◌ query or_raise ask
occupied-then w Q org g h = record {
  at = λ t k. elim (Option-cases (w.list_ephemeral_units t.now)) [
    | inl e ↦ rw e k
    | inr (units, e) ↦ rw e ((h t.now units e).at (record t { now = suc t.now }) k)
  ];
}

group_or_one-ne-zero : (o : Option OrgConfig) → group_or_one o ≢ pos 0
group_or_one-ne-zero none p = one p
  where
    one : pos 1 ≡ pos 0 → ⊥
    one q = ground arith
group_or_one-ne-zero (some oc) p = positive oc.default_group_id p
  where
    positive : (id : ℤ) → (if ltb_ℤ (pos 0) id then id else pos 1) ≡ pos 0 → ⊥
    positive (pos n) q = ground arith
    positive (negsuc n) q = ground arith

default_group_id-ne-zero : (c : Config) (org : Text) → default_group_id c org ≢ pos 0
unfolding default_group_id
default_group_id-ne-zero c org = group_or_one-ne-zero (Config.org c org)

or_default-ne-zero : (id d : ℤ) → d ≢ pos 0 → or_default id d ≢ pos 0
or_default-ne-zero (pos zero) d h p = h p
or_default-ne-zero (pos (suc n)) d h p = ground arith
or_default-ne-zero (negsuc n) d h p = ground arith

-- The count that was asked for is that of the filled specification.
with_labels-count :
    (org : Text) (spec : DeploySpec) (c : Config) → (with_labels org spec c).count ≡ spec.count
unfolding with_labels
with_labels-count org spec c =
    if_both (λ (s : DeploySpec). s.count ≡ spec.count) (is_empty spec.labels) refl refl

module _ {B : Type 0} (w : Site) (Q : Call → Type 0) where
  lane_spec-then :
      (given : DeploySpec) (g : DeploySpec → Op B)
      → ((spec : DeploySpec) → spec.count ≡ given.count → Calls w Q (g spec))
      → Calls w Q (lane_spec given >>= g)
  unfolding lane_spec apply_profile_defaults seed ◌>>=◌ pure ask or_raise guard
  lane_spec-then given g h = record {
    at = λ t k. elim (Bool-cases (text_eq given.profile [])) [
      | inl e ↦ rw e ((h _ (with_labels-count given.org given w.cfg)).at t k)
      | inr e ↦ elim (Option-cases (profile_of given.org given.profile w.cfg)) [
        | inl f ↦ rw e (rw f k)
        | inr (p, f) ↦ elim (Bool-cases (same p.ephemeral true)) [
          | inl s ↦
              rw e (rw f (rw s ((h _ (with_labels-count given.org (seed given p) w.cfg)).at t k)))
          | inr s ↦ rw e (rw f (rw s k))
        ]
      ]
    ];
  }

  require_org-known :
      (org : Text) (g : Unit {0} → Op B)
      → (is_configured org w.cfg ≡ true → Calls w Q (g tt))
      → Calls w Q (require_org org >>= g)
  unfolding ◌>>=◌ require_org guard ask
  require_org-known org g h = record {
    at = λ t k. elim (Bool-cases (text_eq org [])) [
      | inl e ↦ rw e k
      | inr e ↦ elim (Bool-cases (is_configured org w.cfg)) [
        | inl f ↦ rw e (rw f ((h f).at t k))
        | inr f ↦ rw e (rw f k)
      ]
    ];
  }

  dry_or :
      (m n : Op B) → Calls w Q m → Calls w Q n → Calls w Q (dry_run >>= λ dry. if dry then m else n)
  dry_or m n hm hn = Calls-bind_ask _ _ (Calls-if w.cfg.dry_run m n (λ _. hm) (λ _. hn))

module _ (w : Site) (org : Text) where
  create_group-IsAdded :
      (group visibility : Text) → Calls w (IsAdded w org) (create_group org group visibility)
  unfolding create_group
  create_group-IsAdded group visibility =
      let shown : Text = if text_eq visibility [] then codes "all" else visibility in
      let c : Call = Call.create_group org group shown in
      Calls-then (require_org org) _ (require_org-Calls org) (
        dry_or w (IsAdded w org) _ _ (Calls-pure _) (
          Calls-then (client org) _ (client-Calls org) (
            Calls-bind (act c (λ v t. v.group_reply t c)) _ (Calls-act c _ tt)
              (λ g. Calls-or_raise g _))))

  or_create-IsAdded :
      (group : Text) (o : Option Group) → Calls w (IsAdded w org) (or_create org group o)
  or_create-IsAdded group none = create_group-IsAdded group (codes "all")
  or_create-IsAdded group (some g) = Calls-pure g

  get_or_create_group-IsAdded :
      (group : Text) → Calls w (IsAdded w org) (get_or_create_group org group)
  unfolding get_or_create_group
  get_or_create_group-IsAdded group =
      search (calls_rules, require_org-Calls, list_groups-Calls, or_create-IsAdded)

  lane_group-IsAdded : (spec : DeploySpec) → Calls w (IsAdded w org) (lane_group org spec)
  unfolding lane_group
  lane_group-IsAdded spec = search (calls_rules, get_or_create_group-IsAdded) depth 12

  create_slots-IsAdded :
      (labels : List Text) (id : ℤ) (dl : Download) (t : ℕ) (units alloc slots : List Text)
      → id ≢ pos 0
      → w.list_ephemeral_units t ≡ some units
      → All (IsNew org units) alloc
      → Calls w (IsAdded w org) (create_slots org labels id dl alloc slots)
  unfolding create_slots
  create_slots-IsAdded labels id dl t units [] slots n l h = Calls-pure _
  create_slots-IsAdded labels id dl t units (slot ∷ alloc) slots n l (k, h) =
      let spec : EphemeralSlotSpec = slot_spec org slot labels id in
      Calls-bind (call (ensure_slot spec dl)) _
        (Calls-act (ensure_slot spec dl) _ (n, (t, units, l, k)))
        (λ done.
          Calls-if done _ _
            (λ _.
              Calls-then (record_created (ephemeral_record org slot dl)) _
                (Calls-record_created _ tt)
                (create_slots-IsAdded labels id dl t units alloc (slots ++ slot ∷ []) n l h))
            (λ _. Calls-pure _))

create_ephemeral_runners-IsAdded :
    (w : Site) (given : DeploySpec)
    → All (Lacks b'.') (org_names w.cfg)
    → ((now : ℕ) (units : List Text)
        → w.list_ephemeral_units now ≡ some units
        → at_least_one given.count + length units < 2 ^ 63)
    → Calls w (IsAdded w given.org) (create_ephemeral_runners given)
unfolding create_ephemeral_runners
create_ephemeral_runners-IsAdded w given dots few =
    let org : Text = given.org in
    let Q : Call → Type 0 = IsAdded w org in
    require_org-known w Q org _ (λ known. lane_spec-then w Q given _ (λ spec count.
      Calls-bind (lane_group org spec) _ (lane_group-IsAdded w org spec) (λ by_id.
        Calls-bind_ask (λ c. default_group_id c org) _
          (Calls-bind (agent_download org) _ (agent_download-Calls org) (λ dl.
            occupied-then w Q org _ (λ now units l. Calls-bind_or_raise _ _ _ (λ alloc a.
              dry_or w Q _ _ (Calls-pure _) (
                create_slots-IsAdded w org spec.labels _ dl now units alloc []
                  (or_default-ne-zero by_id _ (default_group_id-ne-zero w.cfg org)) l
                  (allocated-IsNew org (org_names w.cfg) units (at_least_one spec.count) alloc
                    (is_configured-mem org w.cfg known) dots (rw count (few now units l)) a)))))))))

-- On every host and whatever GitHub answers, when lanes are created and no two configured orgs can be
-- confused in a unit's name (none has a dot) and the lanes asked for and those on the host are together
-- fewer than 2 ^ 63: each lane that is made has a group and takes a slot that had no unit on the host.
pub create_ephemeral_runners-IsAdditive :
    (w : Site) (given : DeploySpec) (t : Trail)
    → t.log ≡ []
    → All (Lacks b'.') (org_names w.cfg)
    → ((now : ℕ) (units : List Text)
        → w.list_ephemeral_units now ≡ some units
        → at_least_one given.count + length units < 2 ^ 63)
    → All (IsAdded w given.org) (create_ephemeral_runners given w t).1.log
create_ephemeral_runners-IsAdditive w given t e dots few =
    (create_ephemeral_runners-IsAdded w given dots few).at t (rw e tt)
