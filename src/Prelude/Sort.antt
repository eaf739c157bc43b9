-- ===== src/Prelude/Sort.antt =====
-- sort.Slice(xs, less), where less is a strict order: insertion, which keeps the order of ties.
-- Go leaves the order of ties open; what is proved of the program does not depend on it.
pub mod Keep
use srm.Prelude.Tests.{if◌then◌else◌, Bool-cases}
use srm.Prelude.Lists.{All}
use mathlib.Core.Path.{◌≡◌}
use mathlib.Core.Logic.{inl, inr}
use mathlib.Core.Bool.{Bool, true, false}
use mathlib.Core.List.{List, [], ◌∷◌, Perm, Memᴰ}
use mathlib.Core.List.Perm

module _ {ℓ} {A : Type ℓ} (less : A → A → Bool) where
  unfoldable pub insert_by : A → List A → List A
  insert_by x [] = x ∷ []
  insert_by x (y ∷ ys) = let rest = insert_by x ys in if less y x then y ∷ rest else x ∷ y ∷ ys

  unfoldable pub sort_slice : List A → List A
  unfolding insert_by
  sort_slice [] = []
  sort_slice (x ∷ xs) = insert_by x (sort_slice xs)

  -- No element is less than one before it.
  abbrev pub IsSortedBy : List A → Type 0
  IsSortedBy [] = Unit {0}
  IsSortedBy (x ∷ xs) = All (λ y. less y x ≡ false) xs × IsSortedBy xs

  pub insert_by-All {κ} :
      (P : A → Type κ) (x : A) (xs : List A) → P x → All P xs → All P (insert_by x xs)
  unfolding insert_by
  insert_by-All P x [] px h = (px, tt)
  insert_by-All P x (y ∷ ys) px h = elim (Bool-cases (less y x)) [
    | inl e ↦ rw e (h.0, insert_by-All P x ys px h.1)
    | inr e ↦ rw e (px, h)
  ]

  pub sort_slice-All {κ} : (P : A → Type κ) (xs : List A) → All P xs → All P (sort_slice xs)
  unfolding sort_slice
  sort_slice-All P [] h = h
  sort_slice-All P (x ∷ xs) h = insert_by-All P x (sort_slice xs) h.0 (sort_slice-All P xs h.1)

  insert_by-perm : (x : A) (xs : List A) → Perm (insert_by x xs) (x ∷ xs)
  unfolding insert_by
  insert_by-perm x [] = Perm.refl (x ∷ [])
  insert_by-perm x (y ∷ ys) = elim (Bool-cases (less y x)) [
    | inl e ↦ rw e (Perm.trans (Perm.cons y (insert_by-perm x ys)) (Perm.swap x y ys))
    | inr e ↦ rw e (Perm.refl (x ∷ y ∷ ys))
  ]

  pub sort_slice-perm : (xs : List A) → Perm (sort_slice xs) xs
  unfolding sort_slice
  sort_slice-perm [] = Perm.refl []
  sort_slice-perm (x ∷ xs) =
      Perm.trans (insert_by-perm x (sort_slice xs)) (Perm.cons x (sort_slice-perm xs))

-- The laws of a strict weak order that the sort needs.
pub record IsStrictOrder {ℓ} {A : Type ℓ} (less : A → A → Bool) : Type ℓ where
  pub asym : (x y : A) → less x y ≡ true → less y x ≡ false
  -- not less is transitive
  pub negtrans : (x y z : A) → less y x ≡ false → less z y ≡ false → less z x ≡ false

module _ {ℓ} {A : Type ℓ} (less : A → A → Bool) (o : IsStrictOrder less) where
  pub All-not_less :
      (x y : A) (ys : List A)
      → less y x ≡ false
      → All (λ z. less z y ≡ false) ys
      → All (λ z. less z x ≡ false) ys
  All-not_less x y [] e h = tt
  All-not_less x y (z ∷ zs) e h = (o.negtrans x y z e h.0, All-not_less x y zs e h.1)

  insert_by-IsSortedBy :
      (x : A) (xs : List A) → IsSortedBy less xs → IsSortedBy less (insert_by less x xs)
  unfolding insert_by
  insert_by-IsSortedBy x [] h = (tt, tt)
  insert_by-IsSortedBy x (y ∷ ys) h = elim (Bool-cases (less y x)) [
    | inl e ↦ rw e (
      insert_by-All less (λ z. less z y ≡ false) x ys (o.asym y x e) h.0,
      insert_by-IsSortedBy x ys h.1,
    )
    | inr e ↦ rw e ((e, All-not_less x y ys e h.0), h)
  ]

  pub sort_slice-IsSortedBy : (xs : List A) → IsSortedBy less (sort_slice less xs)
  unfolding sort_slice
  sort_slice-IsSortedBy [] = tt
  sort_slice-IsSortedBy (x ∷ xs) =
      insert_by-IsSortedBy x (sort_slice less xs) (sort_slice-IsSortedBy xs)

module _ {ℓ} {A : Type ℓ} (less : A → A → Bool) where
  insert_by-mem : {a : A} (x : A) (xs : List A) → Memᴰ a (x ∷ xs) → Memᴰ a (insert_by less x xs)
  unfolding insert_by
  insert_by-mem x [] m = m
  insert_by-mem x (y ∷ ys) m = elim (Bool-cases (less y x)) [
    | inl e ↦ rw e (front m (insert_by-mem x ys))
    | inr e ↦ rw e m
  ]
    where
      front :
          {a : A}
          → Memᴰ a (x ∷ y ∷ ys)
          → (Memᴰ a (x ∷ ys) → Memᴰ a (insert_by less x ys))
          → Memᴰ a (y ∷ insert_by less x ys)
      front (Memᴰ.head e) f = Memᴰ.tail (f (Memᴰ.head e))
      front (Memᴰ.tail (Memᴰ.head e)) f = Memᴰ.head e
      front (Memᴰ.tail (Memᴰ.tail m)) f = Memᴰ.tail (f (Memᴰ.tail m))

  pub sort_slice-mem : {a : A} (xs : List A) → Memᴰ a xs → Memᴰ a (sort_slice less xs)
  unfolding sort_slice
  sort_slice-mem [] m = elim m [ ]
  sort_slice-mem (x ∷ xs) (Memᴰ.head e) = insert_by-mem x (sort_slice less xs) (Memᴰ.head e)
  sort_slice-mem (x ∷ xs) (Memᴰ.tail m) =
      insert_by-mem x (sort_slice less xs) (Memᴰ.tail (sort_slice-mem xs m))
