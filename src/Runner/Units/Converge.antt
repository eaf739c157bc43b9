-- ===== src/Runner/Units/Converge.antt =====
-- A unit that was just written is read back as conformant.
use srm.Prelude.{
  ℕ, ◌≡◌, refl, true, false, some, List, [], ◌∷◌, ◌++◌, ◌==◌, Bool-cases, inl, inr, arith, Text,
  codes, text_eq_refl,
}
use srm.Prelude.Strings.{strip_prefix}
use srm.Runner.Versions.{split, atoi}
use srm.Runner.Units.Render.{Options, render_drop_in}
use srm.Runner.Units.Marker.{
  trim_space, drop_spaces, line_version, first_version, unit_version, strip_marker,
  template_conformance, conformance, drop_in_conformance,
}

-- A text has a first line.
pub split-cons : (s : Text) → (l : Text) × (lines : List Text) × (split 10 s ≡ l ∷ lines)
unfolding split
split-cons [] = ([], [], refl)
split-cons (c ∷ s) =
    let (l, lines, e) = split-cons s in
    elim (Bool-cases (c == 10)) [
      | inl q ↦ ([], l ∷ lines, rw (e, q) refl)
      | inr q ↦ (c ∷ l, lines, rw (e, q) refl)
    ]

drop_in_version :
    (rest : Text)
    → unit_version
        (codes "[Service]" ++ 10 ∷ (codes "# srm-dropin-v1" ++ 10 ∷ rest))
        (codes "dropin")
      ≡ 1
unfolding unit_version split first_version line_version trim_space drop_spaces strip_prefix atoi
drop_in_version rest = let (l, lines, e) = split-cons rest in rw e refl

unit_version-render_drop_in :
    (opts : Options) → unit_version (render_drop_in opts) (codes "dropin") ≡ 1
unfolding render_drop_in
unit_version-render_drop_in opts = drop_in_version _

-- A text of the current version that is what would be written
pub conformance_self :
    (kind : Text) (current : ℕ) (want : Text)
    → unit_version want kind ≡ current
    → conformance kind current want want ≡ record { ver = current; ok = true; newer = false }
unfolding conformance template_conformance
conformance_self kind current want e = rw (e, text_eq_refl (strip_marker want kind)) (ground arith)

pub drop_in_conformance-render_drop_in :
    (opts : Options)
    → drop_in_conformance opts (some (render_drop_in opts))
      ≡ record { ver = 1; ok = true; newer = false }
unfolding drop_in_conformance
drop_in_conformance-render_drop_in opts =
    conformance_self (codes "dropin") 1 (render_drop_in opts) (unit_version-render_drop_in opts)
