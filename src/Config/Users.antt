-- ===== src/Config/Users.antt =====
-- slug, RunnerUserFor and validUserName of internal/config/config.go.
pub mod Slugs
use srm.Prelude.{
  ℕ, ◌+◌, ◌-◌, Bool, true, false, ◌&&◌, ◌||◌, not, Option, none, some, List, [], ◌∷◌, ◌++◌, reverse,
  leb, ◌==◌, if◌then◌else◌, map, Text, codes, text_eq,
}
use srm.Prelude.Strings.{has_suffix}
use srm.Config.{OrgConfig, Config, org}

abbrev pub is_between : ℕ → ℕ → ℕ → Bool
is_between first last r = leb first r && leb r last

-- unicode.ToLower, where its result is an ASCII rune; any other rune only has to stay outside ASCII.
unfoldable pub lower : ℕ → ℕ
lower r =
    if is_between b'A' b'Z' r
    then r + 32
    else if r == 304
    then b'i'
    else if r == 8490
    then b'k'
    else r

unfoldable pub slug_rune : ℕ → ℕ
slug_rune r = if is_between b'a' b'z' r || is_between b'0' b'9' r then r else b'-'

-- The runes behind the dashes at the front
unfoldable pub drop_dashes : Text → Text
drop_dashes [] = []
drop_dashes (r ∷ s) = let rest = drop_dashes s in if r == b'-' then rest else r ∷ s

-- strings.Trim(s, "-")
unfoldable pub trim_dashes : Text → Text
unfolding drop_dashes
trim_dashes s = reverse (drop_dashes (reverse (drop_dashes s)))

unfoldable pub slug : Text → Text
unfolding trim_dashes slug_rune lower
slug s = trim_dashes (map (λ r. slug_rune (lower r)) s)

abbrev user_or_slug : Text → Option OrgConfig → Text
user_or_slug name none = codes "srm-" ++ slug name
user_or_slug name (some oc) =
    if not (text_eq oc.runner_user []) then oc.runner_user else codes "srm-" ++ slug name

unfoldable pub runner_user_for : Config → Text → Text
unfolding slug
runner_user_for c name =
    if not c.per_org_users then c.runner_user else user_or_slug name (org c name)

unfoldable pub is_letter : ℕ → Bool
is_letter r = is_between b'a' b'z' r || (is_between b'A' b'Z' r || r == b'_')

unfoldable pub is_late : ℕ → Bool
is_late r = is_between b'0' b'9' r || r == b'-'

-- The loop of validUserName; the flag is i == 0.
unfoldable pub valid_runes : Bool → Text → Bool
unfolding is_letter is_late
valid_runes first [] = true
valid_runes first (r ∷ s) =
    let rest = valid_runes false s in
    if is_letter r then rest else if is_late r then (if first then false else rest) else false

unfoldable pub valid_user_name : Text → Bool
unfolding valid_runes
valid_user_name s = if text_eq s [] || has_suffix s (codes "-") then false else valid_runes true s
