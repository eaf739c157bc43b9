-- ===== src/Runner/Units/Lane.antt =====
-- The unit of a lane that was just written is read back as conformant.
use srm.Prelude.{
  ℕ, ◌≡◌, ◌≢◌, refl, ◌∙◌, Bool, true, false, some, none, List, [], ◌∷◌, ◌++◌, reverse,
  reverse-append, ◌==◌, Bool-cases, inl, inr, if◌then◌else◌, arith, All, All-append, Lacks, Text,
  codes, text_eq,
}
use srm.Prelude.Strings.{strip_prefix}
use srm.Runner.Versions.{split, atoi}
use srm.Runner.Units.Templates.{
  line, concat, unlines, ephemeral_hardening, ephemeral_hardening_din_d,
}
use srm.Runner.Units.Render.{
  Options, exec_start, description, config_flag, exe, default_self_exe, render_ephemeral_unit,
}
use srm.Runner.Units.Marker.{
  is_space, trim_space, drop_spaces, line_version, first_version, unit_version,
  ephemeral_conformance,
}
use srm.Runner.Units.Converge.{split-cons, conformance_self}

abbrev lane_kind : Text
lane_kind = codes "ephemeral"

split-line : (p s : Text) → Lacks 10 p → split 10 (line p ++ s) ≡ p ∷ split 10 s
unfolding split
split-line [] s h = let (l, lines, e) = split-cons s in rw e refl
split-line (c ∷ p) s h = rw (split-line p s h.1) (ground (arith, h.0))

drop_spaces-end :
    (c : ℕ) (s : Text) → is_space c ≡ false → (t : Text) × (drop_spaces (s ++ c ∷ []) ≡ t ++ c ∷ [])
unfolding drop_spaces
drop_spaces-end c [] h = ([], rw h refl)
drop_spaces-end c (d ∷ s) h = elim (Bool-cases (is_space d)) [
  | inl e ↦ let (t, q) = drop_spaces-end c s h in (t, rw (e, q) refl)
  | inr e ↦ (d ∷ s, rw e refl)
]

-- A line that begins with no space keeps its first rune.
trim_space-head :
    (c : ℕ) (s : Text) → is_space c ≡ false → (t : Text) × (trim_space (c ∷ s) ≡ c ∷ t)
unfolding trim_space
trim_space-head c s h =
    let (t, q) = drop_spaces-end c (reverse s) h in
    let first : drop_spaces (c ∷ s) ≡ c ∷ s = unfold drop_spaces in rw h refl in
    (reverse t, rw (first, reverse-append (c ∷ []) s, q) (reverse-append t (c ∷ [])))

-- A line that begins with neither a space nor '#' has no version.
line_version-none :
    (c : ℕ) (p : Text)
    → is_space c ≡ false
    → (35 == c) ≡ false
    → line_version lane_kind (c ∷ p) ≡ none
unfolding line_version
line_version-none c p h n =
    let (t, q) = trim_space-head c p h in rw q (unfold strip_prefix in rw n refl)

unit_version-line :
    (c : ℕ) (p s : Text)
    → is_space c ≡ false
    → (35 == c) ≡ false
    → Lacks 10 (c ∷ p)
    → unit_version (line (c ∷ p) ++ s) lane_kind ≡ unit_version s lane_kind
unfolding unit_version first_version
unit_version-line c p s h n l =
    rw (split-line (c ∷ p) s l, first_version, line_version-none c p h n) refl

unit_version-empty : (s : Text) → unit_version (10 ∷ s) lane_kind ≡ unit_version s lane_kind
unfolding unit_version first_version line_version
unit_version-empty s = rw (split-line [] s tt) (unfold trim_space drop_spaces strip_prefix in refl)

-- A test of a literal
lacks_newline : Text → Bool
lacks_newline [] = true
lacks_newline (c ∷ s) = let rest = lacks_newline s in if c == 10 then false else rest

lacks_newline-Lacks : (s : Text) → lacks_newline s ≡ true → Lacks 10 s
unfolding lacks_newline
lacks_newline-Lacks [] h = tt
lacks_newline-Lacks (c ∷ s) h = (ground (arith, h), lacks_newline-Lacks s (ground (arith, h)))

-- No newline in what a lane's unit is rendered from
pub record IsOneLine (opts : Options) (org slot work_dir : Text) : Type 0 where
  pub one_line_org : Lacks 10 org
  pub one_line_slot : Lacks 10 slot
  pub one_line_dir : Lacks 10 work_dir
  pub one_line_exe : Lacks 10 opts.self_exe
  pub one_line_config : Lacks 10 opts.config_path

Lacks-append : (s t : Text) → Lacks 10 s → Lacks 10 t → Lacks 10 (s ++ t)
Lacks-append s t h k = All-append (λ d. d ≢ 10) s t h k

hardening_version :
    (rest : Text) → unit_version (codes "# srm-ephemeral-v2" ++ 10 ∷ rest) lane_kind ≡ 2
unfolding unit_version split first_version line_version trim_space drop_spaces strip_prefix atoi
hardening_version rest = let (l, lines, e) = split-cons rest in rw e refl

either_hardening :
    (b : Bool) (rest : Text)
    → unit_version
        (unlines (if b then ephemeral_hardening_din_d else ephemeral_hardening) ++ rest)
        lane_kind
      ≡ 2
either_hardening true rest = hardening_version _
either_hardening false rest = hardening_version _

literal_line :
    (c : ℕ) (p s : Text)
    → is_space c ≡ false
    → (35 == c) ≡ false
    → lacks_newline (c ∷ p) ≡ true
    → unit_version (line (c ∷ p) ++ s) lane_kind ≡ unit_version s lane_kind
literal_line c p s h n l = unit_version-line c p s h n (lacks_newline-Lacks (c ∷ p) l)

concat-Lacks : (texts : List Text) → All (Lacks 10) texts → Lacks 10 (concat texts)
concat-Lacks [] h = tt
concat-Lacks (t ∷ texts) h = Lacks-append t (concat texts) h.0 (concat-Lacks texts h.1)

module _ (opts : Options) (org slot work_dir : Text) (o : IsOneLine opts org slot work_dir) where
  description-Lacks : Lacks 10 (description org slot)
  unfolding lacks_newline
  description-Lacks =
      concat-Lacks
        (codes "ephemeral runner slot " ∷ org ∷ codes "/" ∷ slot ∷ codes " (managed by srm)" ∷ [])
        (
          lacks_newline-Lacks (codes "ephemeral runner slot ") refl,
          (
            o.one_line_org,
            (
              lacks_newline-Lacks (codes "/") refl,
              (o.one_line_slot, (lacks_newline-Lacks (codes " (managed by srm)") refl, tt)),
            ),
          ),
        )

  exe-Lacks : Lacks 10 (exe opts)
  unfolding lacks_newline
  exe-Lacks = elim (Bool-cases (text_eq opts.self_exe [])) [
    | inl e ↦ rw e (lacks_newline-Lacks default_self_exe refl)
    | inr e ↦ rw e o.one_line_exe
  ]

  config_flag-Lacks : Lacks 10 (config_flag opts)
  unfolding lacks_newline
  config_flag-Lacks = elim (Bool-cases (text_eq opts.config_path [])) [
    | inl e ↦ rw e tt
    | inr e ↦ rw e (
        Lacks-append (codes " --config ") opts.config_path
          (lacks_newline-Lacks (codes " --config ") refl) o.one_line_config)
  ]

  exec_start-Lacks : Lacks 10 (exec_start opts org slot)
  unfolding lacks_newline
  exec_start-Lacks =
      concat-Lacks
        (exe opts
          ∷ codes " _runner-cycle --org "
          ∷ org
          ∷ codes " --slot "
          ∷ slot
          ∷ config_flag opts
          ∷ [])
        (
          exe-Lacks,
          (
            lacks_newline-Lacks (codes " _runner-cycle --org ") refl,
            (
              o.one_line_org,
              (
                lacks_newline-Lacks (codes " --slot ") refl,
                (o.one_line_slot, (config_flag-Lacks, tt)),
              ),
            ),
          ),
        )

  -- A line that begins with a literal
  prefixed_line :
      (c : ℕ) (p t s : Text)
      → is_space c ≡ false
      → (35 == c) ≡ false
      → lacks_newline (c ∷ p) ≡ true
      → Lacks 10 t
      → unit_version (line ((c ∷ p) ++ t) ++ s) lane_kind ≡ unit_version s lane_kind
  prefixed_line c p t s h n l k =
      unit_version-line c (p ++ t) s h n (Lacks-append (c ∷ p) t (lacks_newline-Lacks (c ∷ p) l) k)

  pub unit_version-render_ephemeral_unit :
      unit_version (render_ephemeral_unit opts org slot work_dir) lane_kind ≡ 2
  unfolding render_ephemeral_unit lacks_newline
  unit_version-render_ephemeral_unit =
      literal_line b'[' (codes "Unit]") _ refl refl refl
      ∙ prefixed_line b'D' (codes "escription=srm ") (description org slot) _ refl refl refl
          description-Lacks
      ∙ literal_line b'S' (codes "tartLimitIntervalSec=0") _ refl refl refl
      ∙ unit_version-empty _
      ∙ literal_line b'[' (codes "Service]") _ refl refl refl
      ∙ literal_line b'T' (codes "ype=simple") _ refl refl refl
      ∙ prefixed_line b'W' (codes "orkingDirectory=") work_dir _ refl refl refl o.one_line_dir
      ∙ prefixed_line b'E' (codes "xecStart=") (exec_start opts org slot) _ refl refl refl
          exec_start-Lacks
      ∙ literal_line b'R' (codes "estart=always") _ refl refl refl
      ∙ literal_line b'R' (codes "estartSec=3") _ refl refl refl
      ∙ literal_line b'K' (codes "illMode=mixed") _ refl refl refl
      ∙ literal_line b'T' (codes "imeoutStopSec=3600") _ refl refl refl
      ∙ either_hardening opts.din_d _

  pub ephemeral_conformance-render_ephemeral_unit :
      ephemeral_conformance opts org slot work_dir
        (some (render_ephemeral_unit opts org slot work_dir))
      ≡ record { ver = 2; ok = true; newer = false }
  unfolding ephemeral_conformance
  ephemeral_conformance-render_ephemeral_unit =
      conformance_self lane_kind 2 (render_ephemeral_unit opts org slot work_dir)
        unit_version-render_ephemeral_unit
