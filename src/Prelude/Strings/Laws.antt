-- ===== src/Prelude/Strings/Laws.antt =====
-- Laws of prefixes, suffixes and cuts.
use mathlib.Core.Path.{◌≡◌, refl, ap, ◌∙◌}
use mathlib.Core.Bool.{true}
use mathlib.Core.Option.{some}
use mathlib.Core.List.{[], ◌∷◌, ◌++◌, reverse, reverse-append, reverse-reverse}
use Prim.Native.Nat.{ℕ}
use native.Mathlib.Omega.{arith}
use srm.Prelude.Strings.{Text, strip_prefix, has_prefix, trim_prefix, trim_suffix, cut_at, Lacks}

pub strip_prefix-append : (p s : Text) → strip_prefix p (p ++ s) ≡ some s
unfolding strip_prefix
strip_prefix-append [] s = refl
strip_prefix-append (c ∷ p) s = ground (arith, strip_prefix-append p s)

pub trim_prefix-append : (p s : Text) → trim_prefix (p ++ s) p ≡ s
unfolding trim_prefix
trim_prefix-append p s = rw strip_prefix-append

pub trim_suffix-append : (s p : Text) → trim_suffix (s ++ p) p ≡ s
unfolding trim_suffix
trim_suffix-append s p =
    unfold trim_suffix in
    rw reverse-append (ap reverse (trim_prefix-append (reverse p) (reverse s)) ∙ reverse-reverse s)

pub has_prefix-append : (p s : Text) → has_prefix (p ++ s) p ≡ true
unfolding has_prefix
has_prefix-append [] s = elim s as (λ t. has_prefix t [] ≡ true) [ [] ↦ refl | x ∷ t ↦ refl ]
has_prefix-append (c ∷ p) s = ground (arith, has_prefix-append p s)

-- A text begins with a prefix exactly when the prefix can be stripped.
pub has_prefix-strip : (s p : Text) → has_prefix s p ≡ true → (rest : Text) × (s ≡ p ++ rest)
unfolding has_prefix
has_prefix-strip s [] h = (s, refl)
has_prefix-strip [] (c ∷ p) h = absurd (ground arith)
has_prefix-strip (d ∷ s) (c ∷ p) h =
    let (rest, e) = has_prefix-strip s p (ground arith) in (rest, ground arith)

-- The first `c` of `s ++ c ∷ t` stands behind `s`, where `s` has none.
pub cut_at-append : (c : ℕ) (s t : Text) → Lacks c s → cut_at c (s ++ c ∷ t) ≡ some (s, t)
unfolding cut_at
cut_at-append c [] t h = ground arith
cut_at-append c (d ∷ s) t (e, h) = ground (arith, cut_at-append c s t h)

-- Texts without a separator before it are determined by what stands before the first one.
pub before-separator :
    (c : ℕ) (s t u v : Text) → Lacks c s → Lacks c t → s ++ c ∷ u ≡ t ++ c ∷ v → (s ≡ t) × (u ≡ v)
before-separator c [] [] u v _ _ e = (refl, cc)
before-separator c [] (y ∷ t) u v _ h e = absurd (ground (arith, h.0))
before-separator c (x ∷ s) [] u v h _ e = absurd (ground (arith, h.0))
before-separator c (x ∷ s) (y ∷ t) u v h k e =
    let (p, q) = before-separator c s t u v h.1 k.1 (cc) in (cc, q)

pub strip_prefix-some : (p s : Text) {r : Text} → strip_prefix p s ≡ some r → s ≡ p ++ r
unfolding strip_prefix
strip_prefix-some [] s h = ground arith
strip_prefix-some (c ∷ p) [] h = absurd (ground arith)
strip_prefix-some (c ∷ p) (d ∷ s) {r} h = ground (arith, strip_prefix-some p s {r = r})
