-- ===== src/Runner/Versions/Order.antt =====
-- CompareVersions is the lexicographic order of the version's fields.
use srm.Prelude.{
  ℕ, zero, suc, ◌+◌, ◌≤◌, ◌<◌, ◌≡◌, refl, inl, inr, true, false, none, List, [], ◌∷◌, arith, ltb,
  if◌then◌else◌, length, get_elem?, Text, Bool-cases, ◌↔◌, dec_lt, ◌∙◌, sym,
}
use Prim.Native.Nat.{zero-le}
use srm.Prelude.Int.{ℤ, pos, negsuc, ltb_ℤ, negate}
use srm.Runner.Versions.{split, version_field, compare_from, compare_versions}

-- The fields of a version; those past its end are 0.
abbrev pub fields : Text → ℕ → ℤ
fields v i = version_field (split b'.' v) i

-- The first field in which two versions differ is less in the first.
abbrev pub IsOlder : (ℕ → ℤ) → (ℕ → ℤ) → Type 0
IsOlder f g = (i : ℕ) × ((j : ℕ) → j < i → f j ≡ g j) × (ltb_ℤ (f i) (g i) ≡ true)

ltb_ℤ_irrefl : (a : ℤ) → ltb_ℤ a a ≡ false
ltb_ℤ_irrefl a = ground arith

ltb_ℤ_asym : (a b : ℤ) → ltb_ℤ a b ≡ true → ltb_ℤ b a ≡ false
ltb_ℤ_asym a b h = ground arith

ltb_ℤ_trans : (a b c : ℤ) → ltb_ℤ a b ≡ true → ltb_ℤ b c ≡ true → ltb_ℤ a c ≡ true
ltb_ℤ_trans a b c h k = ground arith

ltb_ℤ_connected : (a b : ℤ) → ltb_ℤ a b ≡ false → ltb_ℤ b a ≡ false → a ≡ b
ltb_ℤ_connected a b h k = ground arith

get_elem?-none {ℓ} : {A : Type ℓ} (xs : List A) (i : ℕ) → length xs ≤ i → get_elem? xs i ≡ none
get_elem?-none [] i h = refl
get_elem?-none (x ∷ xs) zero h = absurd (omega arith)
get_elem?-none (x ∷ xs) (suc i) h = get_elem?-none xs i (omega arith)

version_field-past_end :
    (parts : List Text) (i : ℕ) → length parts ≤ i → version_field parts i ≡ pos 0
unfolding version_field
version_field-past_end parts i h = rw (get_elem?-none parts i h)

module _ (xs ys : List Text) where
  -- The two field sequences agree from `i` up to `j`.
  abbrev Agree : ℕ → ℕ → Type 0
  Agree i j = (l : ℕ) → i ≤ l → l < j → version_field xs l ≡ version_field ys l

  abbrev Less : ℕ → Type 0
  Less j = ltb_ℤ (version_field xs j) (version_field ys j) ≡ true

  compare_from-older :
      (i k : ℕ) → compare_from xs ys i k ≡ negsuc 0 → (j : ℕ) × (i ≤ j) × Agree i j × Less j
  unfolding compare_from
  compare_from-older i zero h = absurd (ground arith)
  compare_from-older i (suc k) h =
      elim (Bool-cases (ltb_ℤ (version_field xs i) (version_field ys i))) [
        | inl e ↦ (i, omega arith, (λ l a b. absurd (omega arith)), e)
        | inr e ↦ elim (Bool-cases (ltb_ℤ (version_field ys i) (version_field xs i))) [
          | inl d ↦ absurd (ground arith)
          | inr d ↦
              let (j, a, agree, less) = compare_from-older (suc i) k (ground arith) in
              let same : version_field xs i ≡ version_field ys i = ltb_ℤ_connected _ _ e d in
              (
                j,
                omega arith,
                λ l p q. elim (dec_lt i l) [
                  | yes r ↦ agree l r q
                  | no r ↦ let eq : l ≡ i = omega arith in rw eq same
                ],
                less,
              )
        ]
      ]

  compare_from-Less :
      (i k j : ℕ) → i ≤ j → j < i + k → Agree i j → Less j → compare_from xs ys i k ≡ negsuc 0
  unfolding compare_from
  compare_from-Less i zero j a b agree less = absurd (omega arith)
  compare_from-Less i (suc k) j a b agree less = elim (dec_lt i j) [
    | yes r ↦ ground (
      arith,
      agree i (omega arith) r,
      ltb_ℤ_irrefl (version_field ys i),
      compare_from-Less (suc i) k j r (omega arith) (λ l p q. agree l (omega arith) q) less,
    )
    | no r ↦ let eq : i ≡ j = omega arith in rw eq (rw less)
  ]

compare_from-swap :
    (xs ys : List Text) (i k : ℕ) → compare_from ys xs i k ≡ negate (compare_from xs ys i k)
unfolding compare_from
compare_from-swap xs ys i zero = refl
compare_from-swap xs ys i (suc k) =
    ground (
      arith,
      compare_from-swap xs ys (suc i) k,
      ltb_ℤ_asym (version_field xs i) (version_field ys i),
    )

-- The rounds of the loop, which cover the fields of both versions.
abbrev rounds : ℕ → ℕ → ℕ
rounds n k = if ltb n k then k else n

rounds_comm : (n k : ℕ) → rounds n k ≡ rounds k n
rounds_comm n k = ground arith

compare_versions_lem :
    (a b : Text)
    → compare_versions a b
      ≡ compare_from
          (split b'.' a)
          (split b'.' b)
          0
          (rounds (length (split b'.' a)) (length (split b'.' b)))
unfolding compare_versions
compare_versions_lem a b = refl

-- A differing field lies within the rounds: past both ends the fields are 0.
less_in_rounds :
    (xs ys : List Text) (j : ℕ)
    → ltb_ℤ (version_field xs j) (version_field ys j) ≡ true
    → j < rounds (length xs) (length ys)
less_in_rounds xs ys j h = elim (dec_lt j (rounds (length xs) (length ys))) [
  | yes r ↦ r
  | no r ↦ absurd (
      ground (
        arith,
        version_field-past_end xs j (ground arith),
        version_field-past_end ys j (ground arith),
      ))
]

-- CompareVersions(a, b) is -1 exactly when the first field in which the versions differ, missing
-- and unreadable fields counting as 0, is less in a.
pub compare_versions-lt_iff :
    (a b : Text) → (compare_versions a b ≡ negsuc 0) ↔ IsOlder (fields a) (fields b)
compare_versions-lt_iff a b = (
  λ h.
      let (j, _, agree, less) =
        compare_from-older (split b'.' a) (split b'.' b) 0
          (rounds (length (split b'.' a)) (length (split b'.' b)))
          (sym (compare_versions_lem a b) ∙ h) in
      (j, (λ l p. agree l zero-le p), less),
  λ older. rw (compare_versions_lem a b) (
      compare_from-Less (split b'.' a) (split b'.' b) 0 _ older.0 (omega arith)
        (omega (arith, less_in_rounds (split b'.' a) (split b'.' b) older.0 older.2))
        (λ l _ p. older.1 l p) older.2),
)

-- Swapping the arguments of CompareVersions negates the result.
compare_versions-swap : (a b : Text) → compare_versions b a ≡ negate (compare_versions a b)
compare_versions-swap a b =
    rw
      (
        compare_versions_lem b a,
        compare_versions_lem a b,
        rounds_comm (length (split b'.' b)) (length (split b'.' a)),
      )
      (compare_from-swap (split b'.' a) (split b'.' b) 0 _)

IsOlder-trans : (f g h : ℕ → ℤ) → IsOlder f g → IsOlder g h → IsOlder f h
IsOlder-trans f g h (i, same, less) (j, same', less') = elim (dec_lt i j) [
  | yes r ↦ (i, (λ l p. same l p ∙ same' l (omega arith)), rw (← same' i r) less)
  | no r ↦ elim (dec_lt j i) [
    | yes q ↦ (j, (λ l p. same l (omega arith) ∙ same' l p), rw (same j q) less')
    | no q ↦
        let e : j ≡ i = omega arith in
        (
          i,
          (λ l p. same l p ∙ same' l (omega arith)),
          ltb_ℤ_trans (f i) (g i) (h i) less (rw e at less'),
        )
  ]
]

-- "Older than" is transitive on versions.
compare_versions_trans :
    (a b c : Text)
    → compare_versions a b ≡ negsuc 0
    → compare_versions b c ≡ negsuc 0
    → compare_versions a c ≡ negsuc 0
compare_versions_trans a b c h k = (compare_versions-lt_iff a c).1 (
    IsOlder-trans (fields a) (fields b) (fields c) ((compare_versions-lt_iff a b).0 h)
      ((compare_versions-lt_iff b c).0 k))
