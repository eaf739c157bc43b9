-- ===== src/Service/Reconcile/Safety/Lookup.antt =====
-- What the two maps that Reconcile makes of GitHub's lists tell of the lists themselves.
use mathlib.Core.Path.{subst}
use srm.Prelude.{
  ◌≡◌, ◌≢◌, refl, ◌∙◌, inl, inr, true, false, ◌&&◌, not, none, some, List, [], ◌∷◌, ◌++◌, arith,
  Bool-cases, Option-cases, All, Memᴰ, Text, text_eq, text_eq_iff, text_eq_refl, false≢true, any_of,
}
use srm.Core.{Runner}
use srm.Service.Reconcile.Model.{Error, Listing, listed, failed, RunnerWithOrg, World}
use srm.Service.Reconcile.Github.{
  filtered_out, gh_row, listed_ok, list_errors, errors_of, has_error,
}
use srm.Service.Reconcile.Safety.{IsInOrg, IsOther}

ne_of_text_eq : (s t : Text) → text_eq s t ≡ false → s ≢ t
ne_of_text_eq s t h p = cc (h, (text_eq_iff s t).1 p)

pub filtered_out-IsInOrg :
    (org_filter org : Text) → filtered_out org_filter org ≡ false → IsInOrg org_filter org
filtered_out-IsInOrg org_filter org h = elim (Bool-cases (text_eq org_filter [])) [
  | inl e ↦ inl ((text_eq_iff org_filter []).0 e)
  | inr e ↦ inr ((text_eq_iff org org_filter).0 (ground (arith, h, e)))
]

module _ (org_filter org name : Text) where
  -- A row that the map does not have is not in the list either, for an org that is asked for.
  pub gh_row-IsOther :
      (rows : List RunnerWithOrg)
      → filtered_out org_filter org ≡ false
      → gh_row org_filter rows org name ≡ none
      → All (IsOther org name) rows
  unfolding gh_row
  gh_row-IsOther [] f h = tt
  gh_row-IsOther (row ∷ rows) f h = elim (Option-cases (gh_row org_filter rows org name)) [
    | inr (later, e) ↦ absurd (ground (arith, h, e))
    | inl e ↦ elim (Bool-cases (text_eq row.org org)) [
      | inr o ↦ (inl (ne_of_text_eq row.org org o), gh_row-IsOther rows f e)
      | inl o ↦ elim (Bool-cases (text_eq row.runner.name name)) [
        | inr n ↦ (inr (ne_of_text_eq row.runner.name name n), gh_row-IsOther rows f e)
        | inl n ↦
            let p : row.org ≡ org = (text_eq_iff row.org org).0 o in
            let g : filtered_out org_filter row.org ≡ false = rw p f in
            absurd (ground (arith, h, e, o, n, g))
      ]
    ]
  ]

  pub gh_row-mem :
      (rows : List RunnerWithOrg) (r : RunnerWithOrg)
      → gh_row org_filter rows org name ≡ some r
      → Memᴰ r rows × (r.org ≡ org) × (r.runner.name ≡ name)
  unfolding gh_row
  gh_row-mem [] r h = absurd (ground arith)
  gh_row-mem (row ∷ rows) r h = elim (Option-cases (gh_row org_filter rows org name)) [
    | inr (later, e) ↦
        let same : later ≡ r = ground (arith, h, e) in
        let (m, o, n) = gh_row-mem rows r (e ∙ cc same) in (Memᴰ.tail m, o, n)
    | inl e ↦
        elim (Bool-cases (
          not (filtered_out org_filter row.org)
          && (text_eq row.org org && text_eq row.runner.name name))) [
            | inr t ↦ absurd (ground (arith, h, e, t))
            | inl t ↦
                let same : r ≡ row = ground (arith, h, e, t) in
                (
                  Memᴰ.head same,
                  (cc same ∙ (text_eq_iff row.org org).0 (ground (arith, t))),
                  (cc same ∙ (text_eq_iff row.runner.name name).0 (ground (arith, t))),
                )
          ]
  ]

-- An org whose list is known to be complete was read.
module _ (w : World) (org : Text) where
  read_or_failed :
      (l : Listing)
      → w.list_runners org ≡ l
      → has_error org (errors_of org l) ≡ false
      → (rs : List Runner) × (w.list_runners org ≡ listed rs)
  unfolding has_error errors_of
  read_or_failed (listed rs) e h = (rs, e)
  read_or_failed (failed x) e h = absurd (ground (arith, h, text_eq_refl org))

  has_error-append :
      (xs ys : List (Text × Error))
      → has_error org (xs ++ ys) ≡ false
      → (has_error org xs ≡ false) × (has_error org ys ≡ false)
  unfolding has_error
  has_error-append [] ys h = (refl, h)
  has_error-append ((o, e) ∷ xs) ys h =
      let own : text_eq o org ≡ false = ground (arith, h) in
      let (a, b) = has_error-append xs ys (ground (arith, h)) in (ground (arith, own, a), b)

  read_in :
      (orgs : List Text)
      → any_of (λ name. text_eq name org) orgs ≡ true
      → has_error org (list_errors w orgs) ≡ false
      → (rs : List Runner) × (w.list_runners org ≡ listed rs)
  unfolding any_of list_errors
  read_in [] m h = absurd (false≢true m)
  read_in (o ∷ orgs) m h =
      let (own, others) =
        has_error-append (errors_of o (w.list_runners o)) (list_errors w orgs) h in
      elim (Bool-cases (text_eq o org)) [
        | inr e ↦ read_in orgs (ground (arith, m, e)) others
        | inl e ↦
            let same : o ≡ org = (text_eq_iff o org).0 e in
            read_or_failed (w.list_runners org) refl
              (subst (λ x. has_error org (errors_of x (w.list_runners x)) ≡ false) same own)
      ]

  pub listed_ok-read :
      listed_ok w org ≡ true → (rs : List Runner) × (w.list_runners org ≡ listed rs)
  unfolding listed_ok
  listed_ok-read h = read_in w.org_names (ground (arith, h)) (ground (arith, h))
