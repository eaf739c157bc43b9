-- ===== src/Config/Users/Slugs.antt =====
-- The service user that an org's name gives.
use mathlib.Core.List.{reverse_aux}
use srm.Prelude.{
  ℕ, ◌≡◌, ◌≢◌, refl, ap, true, false, ◌||◌, not, [], ◌∷◌, ◌++◌, reverse, ◌==◌, map, arith, All,
  All-map, Bool-cases, inl, inr, reverse-append, reverse-reverse, Text, codes, text_eq,
}
use srm.Prelude.Strings.{has_prefix, has_suffix}
use srm.Config.Users.{
  lower, slug_rune, drop_dashes, trim_dashes, slug, is_letter, is_late, valid_runes,
  valid_user_name,
}

-- A rune that validUserName takes behind the first place
abbrev IsLateRune : ℕ → Type 0
IsLateRune r = (is_letter r || is_late r) ≡ true

slug_rune-IsLateRune : (r : ℕ) → IsLateRune (slug_rune r)
unfolding slug_rune is_letter is_late
slug_rune-IsLateRune r = ground arith

reverse_aux-All : (P : ℕ → Type 0) (s acc : Text) → All P s → All P acc → All P (reverse_aux s acc)
reverse_aux-All P [] acc h k = k
reverse_aux-All P (r ∷ s) acc h k = reverse_aux-All P s (r ∷ acc) h.1 (h.0, k)

drop_dashes-All : (P : ℕ → Type 0) (s : Text) → All P s → All P (drop_dashes s)
unfolding drop_dashes
drop_dashes-All P [] h = tt
drop_dashes-All P (r ∷ s) h = elim (Bool-cases (r == b'-')) [
  | inl e ↦ rw e (drop_dashes-All P s h.1)
  | inr e ↦ rw e h
]

valid_runes-All : (s : Text) → All IsLateRune s → valid_runes false s ≡ true
unfolding valid_runes
valid_runes-All [] h = refl
valid_runes-All (r ∷ s) h = ground (arith, h.0, valid_runes-All s h.1)

-- What is left without its dashes begins with none.
drop_dashes-no_prefix :
    (s t : Text) → drop_dashes s ≢ [] → has_prefix (drop_dashes s ++ t) (codes "-") ≡ false
unfolding drop_dashes has_prefix
drop_dashes-no_prefix [] t = λ n. absurd (n refl)
drop_dashes-no_prefix (r ∷ s) t = elim (Bool-cases (r == b'-')) [
  | inl e ↦ rw e (drop_dashes-no_prefix s t)
  | inr e ↦ rw e (λ n. ground (arith, e))
]

slug-All : (s : Text) → All IsLateRune (slug s)
unfolding slug trim_dashes
slug-All s =
    reverse_aux-All IsLateRune _ []
      (drop_dashes-All IsLateRune _ (
        reverse_aux-All IsLateRune _ []
          (drop_dashes-All IsLateRune _
            (All-map IsLateRune (λ r. slug_rune (lower r)) s (λ r. slug_rune-IsLateRune (lower r))))
          tt))
      tt

-- A trimmed text has no dash at its end.
trim_dashes-no_suffix :
    (s t : Text) → trim_dashes s ≢ [] → has_suffix (t ++ trim_dashes s) (codes "-") ≡ false
unfolding trim_dashes has_suffix
trim_dashes-no_suffix s t n =
    rw (reverse-append t _, reverse-reverse)
      (drop_dashes-no_prefix (reverse (drop_dashes s)) (reverse t) (λ e. n (ap reverse e)))

-- The text "srm-" and more late runes
valid_user_name-late :
    (t : Text)
    → All IsLateRune t
    → (t ≢ [] → has_suffix (codes "srm-" ++ t) (codes "-") ≡ false)
    → valid_user_name (codes "srm-" ++ t) ≡ not (text_eq t [])
unfolding valid_user_name text_eq
valid_user_name-late [] h n = unfold has_suffix has_prefix in refl
valid_user_name-late (r ∷ t) h n =
    rw (n (λ e. cc)) (unfold valid_runes is_letter is_late in valid_runes-All (r ∷ t) h)

-- The service user made of an org's name is valid exactly if the name's slug is not empty.
pub valid_user_name-slug :
    (s : Text) → valid_user_name (codes "srm-" ++ slug s) ≡ not (text_eq (slug s) [])
valid_user_name-slug s =
    valid_user_name-late (slug s) (slug-All s)
      (unfold slug in trim_dashes-no_suffix (map (λ r. slug_rune (lower r)) s) (codes "srm-"))
