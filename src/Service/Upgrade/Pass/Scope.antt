-- ===== src/Service/Upgrade/Pass/Scope.antt =====
-- What the tests of upgradePersistent on the runners of a pass tell of a runner that passes them.
use srm.Prelude.Strings.{has_prefix}
use srm.Prelude.{
  codes, ◌≡◌, refl, sym, true, false, not, [], List, ◌∷◌, Bool-cases, inl, inr, Memᴰ, Text, text_eq,
  text_eq_iff, ◌⊎◌, arith, false≢true, ◌&&◌, any_of,
}
use srm.Runner.Names.{is_ephemeral_runner_name}
use srm.Service.Reconcile.Model.{RunnerWithOrg}
use srm.Service.Upgrade.Model.{Opts, runner_ref}
use srm.Service.Upgrade.{in_scope, is_selected}

any_of-mem : (r : Text) (xs : List Text) → any_of (λ y. text_eq y r) xs ≡ true → Memᴰ r xs
unfolding any_of
any_of-mem r [] h = absurd (false≢true h)
any_of-mem r (x ∷ xs) h = elim (Bool-cases (text_eq x r)) [
  | inl e ↦ Memᴰ.head (sym ((text_eq_iff x r).0 e))
  | inr e ↦ Memᴰ.tail (any_of-mem r xs (ground (arith, h, e)))
]

is_selected-mem :
    (only : List Text) (r : Text) → is_selected only r ≡ true → (only ≡ []) ⊎ Memᴰ r only
unfolding is_selected
is_selected-mem [] r h = inl refl
is_selected-mem (x ∷ only) r h = inr (any_of-mem r (x ∷ only) h)

in_filter :
    (filter org : Text)
    → (not (text_eq filter []) && not (text_eq org filter)) ≡ false
    → (filter ≡ []) ⊎ (org ≡ filter)
in_filter filter org h = elim (Bool-cases (text_eq filter [])) [
  | inl e ↦ inl ((text_eq_iff filter []).0 e)
  | inr e ↦ inr ((text_eq_iff org filter).0 (ground (arith, h, e)))
]

module _ (opts : Opts) (row : RunnerWithOrg) (h : in_scope opts row ≡ true) where
  pub in_scope-is_local : row.local ≡ true
  unfolding in_scope
  in_scope-is_local = ground (arith, h)

  pub in_scope-not_minted : has_prefix row.runner.name (codes "srm-eph-") ≡ false
  unfolding in_scope is_ephemeral_runner_name
  in_scope-not_minted = ground (arith, h)

  pub in_scope-in_org : (opts.org_filter ≡ []) ⊎ (row.org ≡ opts.org_filter)
  unfolding in_scope
  in_scope-in_org = in_filter opts.org_filter row.org (ground (arith, h))

  pub in_scope-in_selection : (opts.only ≡ []) ⊎ Memᴰ (runner_ref row.org row.runner.name) opts.only
  unfolding in_scope
  in_scope-in_selection =
      is_selected-mem opts.only (runner_ref row.org row.runner.name) (ground (arith, h))
