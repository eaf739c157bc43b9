-- ===== src/Service/Uninstall/Own.antt =====
-- What an uninstall removes beside runners and lanes.
use srm.Prelude.{
  ◌≡◌, refl, Bool, true, false, ◌&&◌, not, Option, none, some, List, [], ◌∷◌, All, All-append,
  arith, Bool-cases, inl, inr, if_both, Text, codes, text_eq,
}
use srm.Prelude.Strings.{has_prefix}
use srm.Config.{Config, org_names}
use srm.Config.Users.{runner_user_for}
use srm.Service.Lifecycle.Model.{Trail}
use srm.Service.Uninstall.Model.{
  UninstallOpts, UninstallReport, Purge, purged_base, backed_up, removed_dir, removed_binary, Site,
  Outcome, Host,
}
use srm.Service.Uninstall.Targets.{
  add_user, has, BaseTargets, add_private, add_private_all, full_targets, org_targets, base_targets,
}
use srm.Service.Uninstall.Plan.{plan, when_some}
use srm.Service.Uninstall.Teardown.{drop_binary, drop_dir, drop_config, drop_base}

abbrev AreSrmUsers : List Text → Type 0
AreSrmUsers = All (λ u. has_prefix u (codes "srm") ≡ true)

-- Users that are removed are srm's; the slice, the config dir and the binary are removed only by an uninstall
-- of the whole host that was asked to.
abbrev pub IsOwn : UninstallOpts → Purge → Type 0
IsOwn opts (purged_base users paths slice) = AreSrmUsers users × (slice ≡ text_eq opts.org [])
IsOwn opts (backed_up path) =
    (text_eq opts.org [] ≡ true) × (opts.purge ≡ true) × (opts.keep_config ≡ false)
IsOwn opts removed_dir =
    (text_eq opts.org [] ≡ true) × (opts.purge ≡ true) × (opts.keep_config ≡ false)
IsOwn opts (removed_binary exe) = (text_eq opts.org [] ≡ true) × (opts.keep_binary ≡ false)

-- The config dir is removed only right after its backup was written.
abbrev pub IsBackedUp : List Purge → Type 0
IsBackedUp [] = Unit {0}
IsBackedUp (removed_dir ∷ backed_up path ∷ purges) = IsBackedUp purges
IsBackedUp (removed_dir ∷ purges) = ⊥
IsBackedUp (purged_base users paths slice ∷ purges) = IsBackedUp purges
IsBackedUp (backed_up path ∷ purges) = IsBackedUp purges
IsBackedUp (removed_binary exe ∷ purges) = IsBackedUp purges

add_user-AreSrmUsers :
    (name : Text) (users : List Text) → AreSrmUsers users → AreSrmUsers (add_user name users)
unfolding add_user
add_user-AreSrmUsers name users h = elim (Bool-cases (has_prefix name (codes "srm"))) [
  | inl e ↦
      if_both AreSrmUsers (has_prefix name (codes "srm") && not (has users name))
        (All-append _ users (name ∷ []) h (e, tt)) h
  | inr e ↦ rw e h
]

add_private_all-AreSrmUsers :
    (c : Config) (names : List Text) (t : BaseTargets)
    → AreSrmUsers t.users
    → AreSrmUsers (add_private_all c names t).users
unfolding add_private_all add_private
add_private_all-AreSrmUsers c [] t h = h
add_private_all-AreSrmUsers c (name ∷ names) t h =
    add_private_all-AreSrmUsers c names (add_private c name t)
      (add_user-AreSrmUsers (runner_user_for c name) t.users h)

base_targets-AreSrmUsers : (c : Config) (name : Text) → AreSrmUsers (base_targets c name).users
unfolding base_targets full_targets org_targets add_private
base_targets-AreSrmUsers c name =
    if_both (λ (t : BaseTargets). AreSrmUsers t.users) (text_eq name [])
      (if_both (λ (t : BaseTargets). AreSrmUsers t.users) c.per_org_users
        (add_private_all-AreSrmUsers c (org_names c) (record { users = []; paths = [] }) tt)
        (add_user-AreSrmUsers c.runner_user [] tt))
      (if_both (λ (t : BaseTargets). AreSrmUsers t.users) c.per_org_users
        (add_user-AreSrmUsers (runner_user_for c name) [] tt) tt)

-- The calls are still those of the trail, and what was purged is srm's.
abbrev pub AreOwn : UninstallOpts → Trail → Host → Type 0
AreOwn opts t h = (h.trail ≡ t) × All (IsOwn opts) h.purges × IsBackedUp h.purges

abbrev DirFits : UninstallOpts → Option Text → Type 0
DirFits opts none = Unit {0}
DirFits opts (some dir) = IsOwn opts removed_dir

abbrev BinaryFits : UninstallOpts → Option Text → Type 0
BinaryFits opts none = Unit {0}
BinaryFits opts (some exe) = IsOwn opts (removed_binary exe)

module _ (w : Site) (opts : UninstallOpts) (t : Trail) where
  drop_binary-AreOwn :
      (rep : UninstallReport) (h : Host) (o : Option Text)
      → BinaryFits opts o
      → AreOwn opts t h
      → AreOwn opts t (drop_binary w rep h o).1
  drop_binary-AreOwn rep h none b k = k
  drop_binary-AreOwn rep h (some exe) b (e, k, l) =
      if_both (λ (x : Outcome × Host). AreOwn opts t x.1) w.remove_binary (e, (b, k), l) (e, k, l)

  drop_dir-AreOwn :
      (rep : UninstallReport) (h : Host) (o : Option Text)
      → IsOwn opts removed_dir
      → BinaryFits opts rep.binary
      → AreOwn opts t h
      → AreOwn opts t (drop_dir w rep h o).1
  drop_dir-AreOwn rep h none d b k = k
  drop_dir-AreOwn rep h (some path) d b (e, k, l) =
      if_both (λ (x : Outcome × Host). AreOwn opts t x.1) w.remove_dir
        (drop_binary-AreOwn _ _ rep.binary b (e, (d, (d, k)), l))
        (drop_binary-AreOwn _ _ rep.binary b (e, (d, k), l))

  drop_config-AreOwn :
      (rep : UninstallReport) (h : Host) (o : Option Text)
      → DirFits opts o
      → BinaryFits opts rep.binary
      → AreOwn opts t h
      → AreOwn opts t (drop_config w opts rep h o).1
  unfolding drop_config
  drop_config-AreOwn rep h none d b k = drop_binary-AreOwn rep h rep.binary b k
  drop_config-AreOwn rep h (some dir) d b k = drop_dir-AreOwn rep h _ d b k

  pub drop_base-AreOwn :
      (rep : UninstallReport) (h : Host)
      → AreSrmUsers rep.users
      → DirFits opts rep.config_dir
      → BinaryFits opts rep.binary
      → AreOwn opts t h
      → AreOwn opts t (drop_base w opts rep h).1
  unfolding drop_base
  drop_base-AreOwn rep h u d b (e, k, l) =
      if_both (λ (x : Outcome × Host). AreOwn opts t x.1) _
        (drop_config-AreOwn _ _ rep.config_dir d b (e, ((u, refl), k), l))
        (drop_config-AreOwn rep h rep.config_dir d b (e, k, l))

module _ (w : Site) (opts : UninstallOpts) where
  pub plan-AreSrmUsers : (units lanes : List Text) → AreSrmUsers (plan w opts units lanes).users
  unfolding plan
  plan-AreSrmUsers units lanes = base_targets-AreSrmUsers w.lifecycle.cfg opts.org

  dir-fits :
      (b : Bool) (d : Text)
      → (b ≡ true → IsOwn opts removed_dir)
      → DirFits opts (when_some b (some d))
  dir-fits true d f = f refl
  dir-fits false d f = tt

  pub plan-DirFits : (units lanes : List Text) → DirFits opts (plan w opts units lanes).config_dir
  unfolding plan
  plan-DirFits units lanes = dir-fits _ w.config_dir (λ e. ground (arith, e))

  binary-fits :
      (b : Bool) (o : Option Text)
      → (b ≡ true → BinaryFits opts (some []))
      → BinaryFits opts (when_some b o)
  binary-fits true none f = tt
  binary-fits true (some exe) f = f refl
  binary-fits false o f = tt

  pub plan-BinaryFits : (units lanes : List Text) → BinaryFits opts (plan w opts units lanes).binary
  unfolding plan
  plan-BinaryFits units lanes = binary-fits _ w.executable (λ e. ground (arith, e))
