-- ===== src/Runner/Versions.antt =====
-- internal/runner/download.go: asset names, and the order of agent versions.
pub mod Order
pub mod Assets
pub mod Numbers
pub mod Splits
use Prim.Native.Nat.{◌^◌, ◌/◌, max}
use srm.Prelude.{
  ℕ, zero, suc, ◌+◌, ◌-◌, ◌*◌, ◌≤◌, ◌<◌, ◌≡◌, Bool, true, false, ◌&&◌, ◌||◌, Option, none, some,
  List, [], ◌∷◌, ◌++◌, reverse, ltb, leb, ◌==◌, if◌then◌else◌, length, get_elem?, Text, codes,
}
use srm.Prelude.Int.{ℤ, pos, negsuc, ltb_ℤ}
use srm.Prelude.Strings.{has_prefix, has_suffix, trim_prefix, trim_suffix}

-- strings.Split(s, sep) for a separator of one byte
unfoldable pub split : ℕ → Text → List Text
split sep [] = [] ∷ []
split sep (c ∷ s) = elim (split sep s) [
  | [] ↦ []
  | part ∷ parts ↦ if c == sep then [] ∷ part ∷ parts else (c ∷ part) ∷ parts
]

digits : ℕ → Text → Option ℕ
digits n [] = some n
digits n (c ∷ s) = if leb b'0' c && leb c b'9' then digits (n * 10 + (c - b'0')) s else none

-- An optional sign and at least one digit; an out-of-range value is an error.
unsigned : Text → Option ℕ
unfolding digits
unsigned [] = none
unsigned (c ∷ s) = digits 0 (c ∷ s)

in_range_pos : Option ℕ → Option ℤ
in_range_pos none = none
in_range_pos (some n) = if ltb n (2 ^ 63) then some (pos n) else none

in_range_neg : Option ℕ → Option ℤ
in_range_neg none = none
in_range_neg (some zero) = some (pos 0)
in_range_neg (some (suc n)) = if ltb n (2 ^ 63) then some (negsuc n) else none

-- strconv.Atoi on a 64-bit host
unfoldable pub atoi : Text → Option ℤ
unfolding unsigned in_range_pos in_range_neg
atoi [] = none
atoi (c ∷ s) =
    if c == b'-'
    then in_range_neg (unsigned s)
    else if c == b'+'
    then in_range_pos (unsigned s)
    else in_range_pos (unsigned (c ∷ s))

abbrev or_zero : Option ℤ → ℤ
or_zero none = pos 0
or_zero (some n) = n

abbrev parsed : Option Text → ℤ
parsed none = pos 0
parsed (some part) = or_zero (atoi part)

unfoldable pub version_field : List Text → ℕ → ℤ
version_field parts i = parsed (get_elem? parts i)

-- The loop of CompareVersions from field `i`, with `k` rounds left.
unfoldable pub compare_from : List Text → List Text → ℕ → ℕ → ℤ
compare_from as' bs i zero = pos 0
compare_from as' bs i (suc k) =
    let rest = compare_from as' bs (suc i) k in
    let ai = version_field as' i in
    let bi = version_field bs i in
    if ltb_ℤ ai bi then negsuc 0 else if ltb_ℤ bi ai then pos 1 else rest

unfoldable pub compare_versions : Text → Text → ℤ
unfolding compare_from
compare_versions a b =
    let parts_a = split b'.' a in
    let parts_b = split b'.' b in
    let n = length parts_a in
    let m = if ltb n (length parts_b) then length parts_b else n in compare_from parts_a parts_b 0 m

abbrev pub release_base : Text
release_base = codes "https://github.com/actions/runner/releases/download"

abbrev pub asset_prefix : Text
asset_prefix = codes "actions-runner-linux-x64-"

abbrev pub asset_suffix : Text
asset_suffix = codes ".tar.gz"

unfoldable pub asset_name : Text → Text
asset_name version = asset_prefix ++ (version ++ asset_suffix)

unfoldable pub download_url : Text → Text
unfolding asset_name
download_url version =
    release_base ++ (codes "/v" ++ (version ++ (codes "/" ++ asset_name version)))

-- The bytes behind the last '/'.
unfoldable pub behind_slash : Text → Text → Text
behind_slash last [] = last
behind_slash last (c ∷ s) = behind_slash (if c == b'/' then [] else last ++ (c ∷ [])) s

-- A text without the '/' at its front.
drop_slashes : Text → Text
drop_slashes [] = []
drop_slashes (c ∷ s) = let rest = drop_slashes s in if c == b'/' then rest else c ∷ s

or_slash : Text → Text
or_slash [] = codes "/"
or_slash (c ∷ s) = c ∷ s

-- path.Base
unfoldable pub base : Text → Text
unfolding behind_slash drop_slashes or_slash
base [] = codes "."
base (c ∷ s) = or_slash (behind_slash [] (reverse (drop_slashes (reverse (c ∷ s)))))

-- base[:i] for i := strings.IndexAny(base, "?#"), if there is one
unfoldable pub before_query : Text → Text
before_query [] = []
before_query (c ∷ s) = let rest = c ∷ before_query s in if c == b'?' || c == b'#' then [] else rest

abbrev drop : ℕ → Text → Text
drop zero s = s
drop (suc n) [] = []
drop (suc n) (c ∷ s) = drop n s

abbrev take : ℕ → Text → Text
take zero s = []
take (suc n) [] = []
take (suc n) (c ∷ s) = c ∷ take n s

-- s[i:j], which panics (`none`) unless i <= j <= len(s)
unfoldable pub slice : Text → ℕ → ℕ → Option Text
slice s i j = if leb i j && leb j (length s) then some (drop i (take j s)) else none

unfoldable pub version_from_url : Text → Option Text
unfolding base before_query slice
version_from_url url =
    let name = before_query (base url) in
    if has_prefix name asset_prefix && has_suffix name asset_suffix
    then slice name (length asset_prefix) (length name - length asset_suffix)
    else some []
