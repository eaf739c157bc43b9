-- ===== src/Config/Load/Checked.antt =====
-- What holds of a configuration that Load returns.
use srm.Prelude.{
  ◌≡◌, ◌≢◌, refl, ◌⊎◌, true, none, some, List, [], ◌∷◌, arith, All, Text, text_eq_iff,
}
use srm.Prelude.Int.{pos, ltb_ℤ}
use srm.Config.{OrgConfig, Config}
use srm.Config.Users.{runner_user_for, valid_user_name}
use srm.Config.Load.{
  out_of_fuel, Loaded, loaded, refused, current_schema_version, resource_mode_auto, defaults,
  migrate_loop, migrate, user_org, validate_orgs, validate_isolation, filled, validated,
  check_filled, check_migrated, File, absent, unexamined, unread, unparsed, overlay, load,
}

module _ (c : Config) where
  -- Two orgs have two service users.
  abbrev pub HasDistinctUsers : List OrgConfig → Type 0
  HasDistinctUsers [] = Unit {0}
  HasDistinctUsers (oc ∷ orgs) =
      All (λ oc'. runner_user_for c oc.name ≢ runner_user_for c oc'.name) orgs
      × HasDistinctUsers orgs

  abbrev pub HasValidUser : OrgConfig → Type 0
  HasValidUser oc = valid_user_name (runner_user_for c oc.name) ≡ true

  abbrev IsFresh : List (Text × Text) → OrgConfig → Type 0
  IsFresh users oc = user_org (runner_user_for c oc.name) users ≡ none

  abbrev Validated : List (Text × Text) → List OrgConfig → Type 0
  Validated users orgs = All HasValidUser orgs × All (IsFresh users) orgs × HasDistinctUsers orgs

  unseen :
      (oc : OrgConfig) (users : List (Text × Text)) (orgs : List OrgConfig)
      → All (IsFresh ((runner_user_for c oc.name, oc.name) ∷ users)) orgs
      → All (IsFresh users) orgs
        × All (λ oc'. runner_user_for c oc.name ≢ runner_user_for c oc'.name) orgs
  unseen oc users [] h = (tt, tt)
  unseen oc users (oc' ∷ orgs) h =
      let (fresh, other) = unseen oc users orgs h.1 in
      let differs = text_eq_iff (runner_user_for c oc.name) (runner_user_for c oc'.name) in
      ((ground (arith, h.0), fresh), (ground (arith, h.0, differs), other))

  validate_orgs-Validated :
      (users : List (Text × Text)) (orgs : List OrgConfig)
      → validate_orgs c users orgs ≡ none
      → Validated users orgs
  unfolding validate_orgs
  validate_orgs-Validated users [] h = (tt, tt, tt)
  validate_orgs-Validated users (oc ∷ orgs) h =
      let passed : HasValidUser oc
          × IsFresh users oc
          × (validate_orgs c ((runner_user_for c oc.name, oc.name) ∷ users) orgs ≡ none) =
        ground arith in
      let (valid, fresh, distinct) =
        validate_orgs-Validated ((runner_user_for c oc.name, oc.name) ∷ users) orgs passed.2 in
      let (fresh', other) = unseen oc users orgs fresh in
      ((passed.0, valid), (passed.1, fresh'), (other, distinct))

-- What Load has checked and filled in.
pub record IsChecked (c : Config) : Type 0 where
  pub current : c.schema_version ≡ current_schema_version
  pub concurrent : ltb_ℤ (pos 0) c.concurrency ≡ true
  pub has_version : c.runner_version ≢ []
  pub has_user : c.runner_user ≢ []
  pub known_mode : (c.resource_mode ≡ []) ⊎ (c.resource_mode ≡ resource_mode_auto)
  pub isolated : c.per_org_users ≡ true → All (HasValidUser c) c.orgs × HasDistinctUsers c c.orgs

validate_isolation-isolated :
    (c : Config)
    → validate_isolation c ≡ none
    → c.per_org_users ≡ true
    → All (HasValidUser c) c.orgs × HasDistinctUsers c c.orgs
unfolding validate_isolation
validate_isolation-isolated c h p =
    let orgs_ok : validate_orgs c [] c.orgs ≡ none = ground (arith, h, p) in
    let (valid, fresh, distinct) = validate_orgs-Validated c [] c.orgs orgs_ok in (valid, distinct)

check_filled-loaded :
    (c c' : Config)
    → check_filled c ≡ loaded c'
    → (c ≡ c')
      × ((c.resource_mode ≡ []) ⊎ (c.resource_mode ≡ resource_mode_auto))
      × (validate_isolation c ≡ none)
unfolding check_filled validated
check_filled-loaded c c' h =
    ground (arith, text_eq_iff c.resource_mode [], text_eq_iff c.resource_mode resource_mode_auto)

filled-IsChecked :
    (c : Config)
    → c.schema_version ≡ current_schema_version
    → (c.resource_mode ≡ []) ⊎ (c.resource_mode ≡ resource_mode_auto)
    → validate_isolation (filled c) ≡ none
    → IsChecked (filled c)
filled-IsChecked c v m h = record {
  current = v;
  concurrent = ground arith;
  has_version = ground (arith, text_eq_iff c.runner_version []);
  has_user = ground (arith, text_eq_iff c.runner_user []);
  known_mode = m;
  isolated = validate_isolation-isolated (filled c) h;
}

migrate-current :
    (c c' : Config) → migrate c ≡ loaded c' → c'.schema_version ≡ current_schema_version
unfolding migrate migrate_loop
migrate-current c c' h = ground arith

check_migrated-IsChecked :
    (l : Loaded) (c : Config)
    → ((c' : Config) → l ≡ loaded c' → c'.schema_version ≡ current_schema_version)
    → check_migrated l ≡ loaded c
    → IsChecked c
unfolding check_migrated
check_migrated-IsChecked (refused e) c v h = absurd (ground (arith, h))
check_migrated-IsChecked (loaded c') c v h =
    let (same, mode, isolation) = check_filled-loaded (filled c') c h in
    rw (← same) (filled-IsChecked c' (v c' refl) mode isolation)

-- A configuration that Load returns has the current schema version, a positive concurrency, a runner version, a
-- service user and a known resource mode; with a user for each org, every org's user is valid and no two
-- orgs have the same one.
pub load-IsChecked : (f : File) (c : Config) → load f ≡ loaded c → IsChecked c
unfolding load
load-IsChecked absent c h =
    check_migrated-IsChecked (migrate defaults) c (migrate-current defaults) h
load-IsChecked (overlay f) c h =
    check_migrated-IsChecked (migrate (f defaults)) c (migrate-current (f defaults)) h
load-IsChecked unexamined c h = absurd (ground (arith, h))
load-IsChecked unread c h = absurd (ground (arith, h))
load-IsChecked unparsed c h = absurd (ground (arith, h))

migrate-ne-out_of_fuel : (c : Config) → migrate c ≢ refused out_of_fuel
unfolding migrate migrate_loop
migrate-ne-out_of_fuel c h = ground (arith, h)

validate_orgs-ne-out_of_fuel :
    (c : Config) (users : List (Text × Text)) (orgs : List OrgConfig)
    → validate_orgs c users orgs ≢ some out_of_fuel
unfolding validate_orgs
validate_orgs-ne-out_of_fuel c users [] h = ground (arith, h)
validate_orgs-ne-out_of_fuel c users (oc ∷ orgs) h =
    ground
      (arith, h, validate_orgs-ne-out_of_fuel c ((runner_user_for c oc.name, oc.name) ∷ users) orgs)

check_migrated-ne-out_of_fuel :
    (l : Loaded) → l ≢ refused out_of_fuel → check_migrated l ≢ refused out_of_fuel
unfolding check_migrated check_filled validated validate_isolation
check_migrated-ne-out_of_fuel (refused e) n h = n h
check_migrated-ne-out_of_fuel (loaded c) n h =
    ground (arith, h, validate_orgs-ne-out_of_fuel (filled c) [] c.orgs)

-- The loop of migrate ends: one round is enough for whatever file Load is given.
pub load-ne-out_of_fuel : (f : File) → load f ≢ refused out_of_fuel
unfolding load
load-ne-out_of_fuel absent h =
    check_migrated-ne-out_of_fuel (migrate defaults) (migrate-ne-out_of_fuel defaults) h
load-ne-out_of_fuel (overlay f) h =
    check_migrated-ne-out_of_fuel (migrate (f defaults)) (migrate-ne-out_of_fuel (f defaults)) h
load-ne-out_of_fuel unexamined h = ground (arith, h)
load-ne-out_of_fuel unread h = ground (arith, h)
load-ne-out_of_fuel unparsed h = ground (arith, h)
