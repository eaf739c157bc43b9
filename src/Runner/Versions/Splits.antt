-- ===== src/Runner/Versions/Splits.antt =====
-- The parts of a text (strings.Split).
use srm.Prelude.{ℕ, ◌≡◌, refl, ap, ◌∙◌, List, [], ◌∷◌, ◌++◌, arith, if_both, Text, ◌==◌, Lacks}
use srm.Runner.Versions.{split}

pub split-Lacks : (sep : ℕ) (s : Text) → Lacks sep s → split sep s ≡ s ∷ []
unfolding split
split-Lacks sep [] h = refl
split-Lacks sep (c ∷ s) (n, h) = rw (split-Lacks sep s h) (ground arith)

record Parts (ts : List Text) : Type 0 where
  head : Text
  rest : List Text
  is_cons : ts ≡ head ∷ rest

split-Parts : (sep : ℕ) (t : Text) → Parts (split sep t)
unfolding split
split-Parts sep [] = record { head = []; rest = []; is_cons = refl }
split-Parts sep (c ∷ t) =
    let ps : Parts (split sep t) = split-Parts sep t in
    rw (ps.is_cons) (
      if_both Parts (c == sep) (record { head = []; rest = ps.head ∷ ps.rest; is_cons = refl })
        (record { head = c ∷ ps.head; rest = ps.rest; is_cons = refl }))

-- The parts up to a separator, and those behind it
pub split-append : (sep : ℕ) (s t : Text) → split sep (s ++ sep ∷ t) ≡ split sep s ++ split sep t
unfolding split
split-append sep [] t =
    let ps : Parts (split sep t) = split-Parts sep t in rw (ps.is_cons) (ground arith)
split-append sep (c ∷ s) t =
    let ps : Parts (split sep s) = split-Parts sep s in
    rw (split-append sep s t) (rw (ps.is_cons) (ground arith))

-- A text that lacks the separator, up to one
pub split-cut : (sep : ℕ) (s t : Text) → Lacks sep s → split sep (s ++ sep ∷ t) ≡ s ∷ split sep t
split-cut sep s t h = split-append sep s t ∙ ap (λ ps. ps ++ split sep t) (split-Lacks sep s h)
