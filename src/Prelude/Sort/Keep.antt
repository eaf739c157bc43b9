-- ===== src/Prelude/Sort/Keep.antt =====
-- Sorting what a test keeps is keeping that of the sorted list.
use mathlib.Core.Path.{◌≡◌, refl, sym, ap, ◌∙◌}
use mathlib.Core.Logic.{inl, inr}
use mathlib.Core.Bool.{Bool, true, false}
use mathlib.Core.List.{List, [], ◌∷◌}
use srm.Prelude.Tests.{Bool-cases}
use srm.Prelude.Lists.{All, keep}
use srm.Prelude.Sort.{
  insert_by, sort_slice, IsSortedBy, IsStrictOrder, All-not_less, sort_slice-IsSortedBy,
}

module _ {ℓ} {A : Type ℓ} (less : A → A → Bool) (o : IsStrictOrder less) (p : A → Bool) where
  insert_by-front :
      (x : A) (xs : List A) → All (λ y. less y x ≡ false) xs → insert_by less x xs ≡ x ∷ xs
  unfolding insert_by
  insert_by-front x [] h = refl
  insert_by-front x (y ∷ ys) h = rw h.0 refl

  All-keep : (P : A → Type 0) (xs : List A) → All P xs → All P (keep p xs)
  unfolding keep
  All-keep P [] h = tt
  All-keep P (x ∷ xs) h = elim (Bool-cases (p x)) [
    | inl e ↦ rw e (h.0, All-keep P xs h.1)
    | inr e ↦ rw e (All-keep P xs h.1)
  ]

  keep-insert_by_dropped :
      (x : A) (xs : List A) → p x ≡ false → keep p (insert_by less x xs) ≡ keep p xs
  unfolding insert_by keep
  keep-insert_by_dropped x [] e = rw e refl
  keep-insert_by_dropped x (y ∷ ys) e = elim (Bool-cases (less y x)) [
    | inl l ↦ rw (l, keep-insert_by_dropped x ys e) refl
    | inr l ↦ rw (l, e) refl
  ]

  keep-insert_by :
      (x : A) (xs : List A)
      → p x ≡ true
      → IsSortedBy less xs
      → keep p (insert_by less x xs) ≡ insert_by less x (keep p xs)
  unfolding insert_by keep
  keep-insert_by x [] e h = rw e refl
  keep-insert_by x (y ∷ ys) e h = elim (Bool-cases (less y x)) [
    | inl l ↦ elim (Bool-cases (p y)) [
      | inl q ↦ rw (l, q, l) (ap (λ zs. y ∷ zs) (keep-insert_by x ys e h.1))
      | inr q ↦ rw (l, q) (keep-insert_by x ys e h.1)
    ]
    | inr l ↦
        rw (l, e)
          (sym (
            insert_by-front x (keep p (y ∷ ys))
              (All-keep (λ z. less z x ≡ false) (y ∷ ys) (l, All-not_less less o x y ys l h.0))))
  ]

  pub keep-sort_slice : (xs : List A) → keep p (sort_slice less xs) ≡ sort_slice less (keep p xs)
  unfolding sort_slice keep
  keep-sort_slice [] = refl
  keep-sort_slice (x ∷ xs) = elim (Bool-cases (p x)) [
    | inl e ↦ rw e (
        keep-insert_by x (sort_slice less xs) e (sort_slice-IsSortedBy less o xs)
        ∙ ap (insert_by less x) (keep-sort_slice xs))
    | inr e ↦ rw e (keep-insert_by_dropped x (sort_slice less xs) e ∙ keep-sort_slice xs)
  ]
