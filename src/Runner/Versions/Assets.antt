-- ===== src/Runner/Versions/Assets.antt =====
-- VersionFromURL against DownloadURL and AssetName.
use srm.Prelude.{
  ℕ, ◌+◌, ◌-◌, ◌≤◌, ◌≡◌, ◌≢◌, refl, sym, ap, ◌∙◌, true, ◌&&◌, Option, none, some, [], ◌∷◌, ◌++◌,
  reverse, append_assoc, append-nil, reverse-append, reverse-reverse, arith, ◌==◌, if◌then◌else◌,
  Bool-cases, inl, inr, length, length-append, All-append, All-reverse, Text, codes, Lacks,
}
use srm.Prelude.Strings.{has_prefix, has_suffix}
use srm.Prelude.Strings.Laws.{has_prefix-append, has_prefix-strip}
use srm.Runner.Versions.{
  asset_prefix, asset_suffix, release_base, asset_name, download_url, behind_slash, drop_slashes,
  or_slash, base, before_query, drop, take, slice, version_from_url,
}

behind_slash-skip : (last s t : Text) → behind_slash last (s ++ b'/' ∷ t) ≡ behind_slash [] t
unfolding behind_slash
behind_slash-skip last [] t = refl
behind_slash-skip last (c ∷ s) t = behind_slash-skip (if c == b'/' then [] else last ++ c ∷ []) s t

behind_slash-Lacks : (last t : Text) → Lacks b'/' t → behind_slash last t ≡ last ++ t
unfolding behind_slash
behind_slash-Lacks last [] h = sym (append-nil last)
behind_slash-Lacks last (c ∷ t) (n, h) = elim (Bool-cases (c == b'/')) [
  | inl e ↦ absurd (ground arith)
  | inr e ↦ rw e (behind_slash-Lacks (last ++ c ∷ []) t h ∙ append_assoc last (c ∷ []) t)
]

drop_slashes-append : (c : ℕ) (s t : Text) → c ≢ b'/' → drop_slashes ((c ∷ s) ++ t) ≡ (c ∷ s) ++ t
unfolding drop_slashes
drop_slashes-append c s t h = ground arith

drop_slashes-reverse :
    (s : Text) (r : Text) → Lacks b'/' r → r ≢ [] → drop_slashes (r ++ s) ≡ r ++ s
drop_slashes-reverse s [] h n = absurd (n refl)
drop_slashes-reverse s (c ∷ r) h n = drop_slashes-append c r s h.0

or_slash_lem : (s : Text) → s ≢ [] → or_slash s ≡ s
unfolding or_slash
or_slash_lem [] h = absurd (h refl)
or_slash_lem (c ∷ s) h = refl

reverse-ne-nil : (s : Text) → s ≢ [] → reverse s ≢ []
reverse-ne-nil s h e = h (sym (reverse-reverse s) ∙ ap reverse e)

base_lem :
    (s : Text) → s ≢ [] → base s ≡ or_slash (behind_slash [] (reverse (drop_slashes (reverse s))))
unfolding base
base_lem [] h = absurd (h refl)
base_lem (c ∷ s) h = refl

append-ne-nil : (s : Text) (c : ℕ) (t : Text) → s ++ c ∷ t ≢ []
append-ne-nil [] c t e = cc
append-ne-nil (d ∷ s) c t e = cc

-- path.Base of a path whose last element is `name`.
base-last : (s name : Text) → Lacks b'/' name → name ≢ [] → base (s ++ b'/' ∷ name) ≡ name
base-last s name h n =
    base_lem (s ++ b'/' ∷ name) (append-ne-nil s b'/' name)
    ∙ ap (λ t. or_slash (behind_slash [] t)) kept
    ∙ ap or_slash (behind_slash-skip [] s name ∙ behind_slash-Lacks [] name h)
    ∙ or_slash_lem name n
  where
    parts : s ++ b'/' ∷ name ≡ (s ++ b'/' ∷ []) ++ name
    parts = sym (append_assoc s (b'/' ∷ []) name)

    kept : reverse (drop_slashes (reverse (s ++ b'/' ∷ name))) ≡ s ++ b'/' ∷ name
    kept =
        ap reverse (
          ap (λ t. drop_slashes (reverse t)) parts
          ∙ (ap drop_slashes (reverse-append (s ++ b'/' ∷ []) name)
              ∙ drop_slashes-reverse (reverse (s ++ b'/' ∷ [])) (reverse name)
                  (All-reverse (λ d. d ≢ b'/') name h) (reverse-ne-nil name n))
          ∙ sym (reverse-append (s ++ b'/' ∷ []) name)
          ∙ ap reverse (sym parts))
        ∙ reverse-reverse (s ++ b'/' ∷ name)

before_query-Lacks : (s : Text) → Lacks b'?' s → Lacks b'#' s → before_query s ≡ s
unfolding before_query
before_query-Lacks [] h k = refl
before_query-Lacks (c ∷ s) h k = ground (arith, h.0, k.0, before_query-Lacks s h.1 k.1)

take-append : (s t : Text) → take (length s) (s ++ t) ≡ s
take-append [] t = refl
take-append (c ∷ s) t = ap (◌∷◌ c) (take-append s t)

drop-append : (s t : Text) → drop (length s) (s ++ t) ≡ t
drop-append [] t = refl
drop-append (c ∷ s) t = drop-append s t

slice-middle :
    (p v x : Text) → slice (p ++ (v ++ x)) (length p) (length (p ++ (v ++ x)) - length x) ≡ some v
unfolding slice
slice-middle p v x =
    let n : length (p ++ (v ++ x)) ≡ length p + (length v + length x) =
      omega (arith, length-append p (v ++ x), length-append v x) in
    let m : length p + (length v + length x) - length x ≡ length (p ++ v) =
      omega (arith, length-append p v) in
    let t : take (length (p ++ v)) (p ++ (v ++ x)) ≡ p ++ v =
      ap (take (length (p ++ v))) (sym (append_assoc p v x)) ∙ take-append (p ++ v) x in
    ground (arith, n, m, t, drop-append p v, length-append p v)

has_suffix-append : (s p : Text) → has_suffix (s ++ p) p ≡ true
unfolding has_suffix
has_suffix-append s p = rw reverse-append (has_prefix-append (reverse p) (reverse s))

-- The version has none of the bytes that end a path element or begin a query.
pub record IsPlain (v : Text) : Type 0 where
  pub no_slash : Lacks b'/' v
  pub no_query : Lacks b'?' v
  pub no_fragment : Lacks b'#' v

asset_name-Lacks :
    (c : ℕ) (v : Text)
    → Lacks c asset_prefix
    → Lacks c asset_suffix
    → Lacks c v
    → Lacks c (asset_name v)
unfolding asset_name
asset_name-Lacks c v p x h =
    All-append (λ d. d ≢ c) asset_prefix (v ++ asset_suffix) p
      (All-append (λ d. d ≢ c) v asset_suffix h x)

asset_name-ne-nil : (v : Text) → asset_name v ≢ []
unfolding asset_name
asset_name-ne-nil v e = cc

base-download_url : (v : Text) → Lacks b'/' v → base (download_url v) ≡ asset_name v
unfolding download_url
base-download_url v h =
    ap base regroup
    ∙ base-last (release_base ++ (codes "/v" ++ v)) (asset_name v)
        (asset_name-Lacks b'/' v (omega arith) (omega arith) h) (asset_name-ne-nil v)
  where
    regroup :
        release_base ++ (codes "/v" ++ (v ++ (codes "/" ++ asset_name v)))
        ≡ (release_base ++ (codes "/v" ++ v)) ++ b'/' ∷ asset_name v
    regroup = sym (append_assoc release_base (codes "/v" ++ v) (b'/' ∷ asset_name v))

before_query-asset_name : (v : Text) → IsPlain v → before_query (asset_name v) ≡ asset_name v
before_query-asset_name v h =
    before_query-Lacks (asset_name v)
      (asset_name-Lacks b'?' v (omega arith) (omega arith) h.no_query)
      (asset_name-Lacks b'#' v (omega arith) (omega arith) h.no_fragment)

has_prefix-asset_name : (v : Text) → has_prefix (asset_name v) asset_prefix ≡ true
unfolding asset_name
has_prefix-asset_name v = has_prefix-append asset_prefix (v ++ asset_suffix)

has_suffix-asset_name : (v : Text) → has_suffix (asset_name v) asset_suffix ≡ true
unfolding asset_name
has_suffix-asset_name v =
    ap (λ t. has_suffix t asset_suffix) (sym (append_assoc asset_prefix v asset_suffix))
    ∙ has_suffix-append (asset_prefix ++ v) asset_suffix

slice-asset_name :
    (v : Text)
    → slice (asset_name v) (length asset_prefix) (length (asset_name v) - length asset_suffix)
      ≡ some v
unfolding asset_name
slice-asset_name v = slice-middle asset_prefix v asset_suffix

-- What VersionFromURL makes of the last path element.
abbrev peel : Text → Option Text
peel name =
    if has_prefix name asset_prefix && has_suffix name asset_suffix
    then slice name (length asset_prefix) (length name - length asset_suffix)
    else some []

version_from_url_lem : (url : Text) → version_from_url url ≡ peel (before_query (base url))
unfolding version_from_url
version_from_url_lem url = refl

-- VersionFromURL gives back the version that DownloadURL was given, if the version has no slash, no
-- question mark and no hash sign.
version_from_url-download_url : (v : Text) → IsPlain v → version_from_url (download_url v) ≡ some v
version_from_url-download_url v h =
    version_from_url_lem (download_url v)
    ∙ ap (λ t. peel (before_query t)) (base-download_url v h.no_slash)
    ∙ ap peel (before_query-asset_name v h)
    ∙ rw (has_prefix-asset_name v) (rw (has_suffix-asset_name v) (slice-asset_name v))

-- A text that ends in ".tar.gz" has '.' seven bytes before its end, so the suffix does not reach
-- back into the prefix, which ends in '-'.
no_overlap : (rest : Text) → has_suffix (asset_prefix ++ rest) asset_suffix ≡ true → 7 ≤ length rest
unfolding has_suffix has_prefix
no_overlap [] h = absurd (ground arith)
no_overlap (a ∷ []) h = absurd (ground arith)
no_overlap (a ∷ b ∷ []) h = absurd (ground arith)
no_overlap (a ∷ b ∷ c ∷ []) h = absurd (ground arith)
no_overlap (a ∷ b ∷ c ∷ d ∷ []) h = absurd (ground arith)
no_overlap (a ∷ b ∷ c ∷ d ∷ e ∷ []) h = absurd (ground arith)
no_overlap (a ∷ b ∷ c ∷ d ∷ e ∷ f ∷ []) h = absurd (ground arith)
no_overlap (a ∷ b ∷ c ∷ d ∷ e ∷ f ∷ g ∷ rest) h = omega arith

-- A name with the asset prefix and suffix is at least as long as both together.
room :
    (name : Text)
    → has_prefix name asset_prefix ≡ true
    → has_suffix name asset_suffix ≡ true
    → length asset_prefix + length asset_suffix ≤ length name
room name p x =
    let (rest, e) = has_prefix-strip name asset_prefix p in
    let l : 7 ≤ length rest = no_overlap rest (ap (λ t. has_suffix t asset_suffix) (sym e) ∙ x) in
    omega (arith, ap length e, length-append asset_prefix rest)

slice-ne-none : (s : Text) (i j : ℕ) → i ≤ j → j ≤ length s → slice s i j ≢ none
unfolding slice
slice-ne-none s i j h k e = ground arith

peel-ne-none : (name : Text) → peel name ≢ none
peel-ne-none name = elim (Bool-cases (has_prefix name asset_prefix)) [
  | inr e ↦ rw e (λ h. cc)
  | inl e ↦ elim (Bool-cases (has_suffix name asset_suffix)) [
    | inr d ↦ rw e (rw d (λ h. cc))
    | inl d ↦ rw e (
        rw d (
          slice-ne-none name (length asset_prefix) (length name - length asset_suffix)
            (omega (arith, room name e d)) (omega arith)))
  ]
]

-- The slice of VersionFromURL is in bounds at every URL: the function does not panic.
version_from_url-ne-none : (url : Text) → version_from_url url ≢ none
version_from_url-ne-none url e =
    peel-ne-none (before_query (base url)) (sym (version_from_url_lem url) ∙ e)
