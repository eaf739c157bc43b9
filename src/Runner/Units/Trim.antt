-- ===== src/Runner/Units/Trim.antt =====
-- strings.TrimSpace of a text that has no space.
use srm.Prelude.{
  ℕ, ◌≡◌, refl, false, [], ◌∷◌, reverse, reverse-reverse, All, All-reverse, Text, arith,
}
use srm.Runner.Versions.Numbers.{IsDigit}
use srm.Runner.Units.Marker.{is_space, drop_spaces, trim_space}

abbrev pub IsVisible : ℕ → Type 0
IsVisible c = is_space c ≡ false

pub digit-IsVisible : (c : ℕ) → IsDigit c → IsVisible c
digit-IsVisible c h = ground arith

pub digits-IsVisible : (s : Text) → All IsDigit s → All IsVisible s
digits-IsVisible [] h = tt
digits-IsVisible (c ∷ s) h = (digit-IsVisible c h.0, digits-IsVisible s h.1)

drop_spaces_self : (s : Text) → All IsVisible s → drop_spaces s ≡ s
unfolding drop_spaces
drop_spaces_self [] h = refl
drop_spaces_self (c ∷ s) h = rw h.0 refl

pub trim_space_self : (s : Text) → All IsVisible s → trim_space s ≡ s
unfolding trim_space
trim_space_self s h =
    rw (drop_spaces_self s h, drop_spaces_self (reverse s) (All-reverse IsVisible s h))
      (reverse-reverse s)
