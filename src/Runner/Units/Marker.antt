-- ===== src/Runner/Units/Marker.antt =====
-- unitVersion, stripMarker and templateConformance of internal/runner/inspect.go, and the part of Inspect
-- and InspectEphemeral that compares what is on the disk with what would be written.
use srm.Prelude.{
  ℕ, Bool, false, ◌&&◌, ◌||◌, not, Option, none, some, List, [], ◌∷◌, ◌++◌, reverse, keep, leb, ltb,
  ◌==◌, if◌then◌else◌, Text, codes, text_eq,
}
use srm.Prelude.Int.{pos, negsuc}
use srm.Prelude.Strings.{strip_prefix, has_prefix}
use srm.Runner.Versions.{split, atoi}
use srm.Runner.Units.Render.{Options, render_drop_in, render_ephemeral_unit}

abbrev pub current_drop_in_version : ℕ
current_drop_in_version = 1

abbrev pub current_ephemeral_version : ℕ
current_ephemeral_version = 2

-- unicode.IsSpace
abbrev pub is_space : ℕ → Bool
is_space r =
    (leb 9 r && leb r 13)
    || (r == 32
        || (r == 133
            || (r == 160
                || (r == 5760
                    || ((leb 8192 r && leb r 8202)
                        || (r == 8232
                            || (r == 8233 || (r == 8239 || (r == 8287 || r == 12288)))))))))

unfoldable pub drop_spaces : Text → Text
drop_spaces [] = []
drop_spaces (r ∷ s) = let rest = drop_spaces s in if is_space r then rest else r ∷ s

-- strings.TrimSpace
unfoldable pub trim_space : Text → Text
unfolding drop_spaces
trim_space s = reverse (drop_spaces (reverse (drop_spaces s)))

abbrev pub marker : Text → Text
marker kind = codes "# srm-" ++ (kind ++ codes "-v")

-- The version of one line, if it has one
marked : Option Text → Option ℕ
marked none = none
marked (some rest) = elim (atoi rest) [
  | none ↦ none
  | some (pos n) ↦ some n
  | some (negsuc n) ↦ none
]

unfoldable pub line_version : Text → Text → Option ℕ
unfolding trim_space marked
line_version kind l = marked (strip_prefix (marker kind) (trim_space l))

unfoldable pub first_version : Text → List Text → ℕ
first_version kind [] = 0
first_version kind (l ∷ lines) = elim (line_version kind l) [
  | some n ↦ n
  | none ↦ first_version kind lines
]

unfoldable pub unit_version : Text → Text → ℕ
unfolding first_version line_version split
unit_version s kind = first_version kind (split 10 s)

-- strings.Join(lines, "\n")
unfoldable pub join_lines : List Text → Text
join_lines [] = []
join_lines (l ∷ []) = l
join_lines (l ∷ m ∷ lines) = l ++ 10 ∷ join_lines (m ∷ lines)

unfoldable pub strip_marker : Text → Text → Text
unfolding join_lines keep split trim_space
strip_marker s kind =
    join_lines (keep (λ l. not (has_prefix (trim_space l) (marker kind))) (split 10 s))

-- ok, newer
unfoldable pub template_conformance : ℕ → ℕ → Bool → Bool × Bool
template_conformance on_disk_ver current_ver body_match =
    let newer = ltb current_ver on_disk_ver in (not newer && body_match, newer)

pub record Conformance : Type 0 where
  pub ver : ℕ
  pub ok : Bool
  pub newer : Bool

unfoldable pub conformance : Text → ℕ → Text → Text → Conformance
unfolding unit_version strip_marker template_conformance
conformance kind current cur want =
    let (ok, newer) =
      template_conformance (unit_version cur kind) current
        (text_eq (strip_marker cur kind) (strip_marker want kind)) in
    record { ver = unit_version cur kind; ok = ok; newer = newer }

-- DropInVer, DropInOK and DropInNewer of a drop-in that is on the disk, or is not
unfoldable pub drop_in_conformance : Options → Option Text → Conformance
unfolding conformance
drop_in_conformance opts none = record { ver = 0; ok = false; newer = false }
drop_in_conformance opts (some cur) =
    conformance (codes "dropin") current_drop_in_version cur (render_drop_in opts)

-- UnitVer, UnitOK and UnitNewer
unfoldable pub ephemeral_conformance : Options → Text → Text → Text → Option Text → Conformance
unfolding conformance
ephemeral_conformance opts org slot work_dir none = record { ver = 0; ok = false; newer = false }
ephemeral_conformance opts org slot work_dir (some cur) =
    conformance (codes "ephemeral") current_ephemeral_version cur
      (render_ephemeral_unit opts org slot work_dir)
