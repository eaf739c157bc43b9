-- ===== src/Service/UnitNames.antt =====
-- parseUnitName and parseEphemeralUnitName of internal/service/reconcile.go.
pub mod RoundTrip
use srm.Prelude.{
  ℕ, Bool, Option, none, some, List, [], ◌∷◌, ◌++◌, ltb, if◌then◌else◌, length, Text, codes,
  text_eq,
}
use srm.Prelude.Strings.{strip_prefix, trim_prefix, trim_suffix}
use srm.Prelude.Sort.{sort_slice}
use srm.Runner.Names.{ephemeral_unit_prefix}

-- The first configured org that is a prefix of `mid`, up to a dot, and what follows that.
unfoldable pub split_org : Text → List Text → Option (Text × Text)
split_org mid [] = none
split_org mid (o ∷ orgs) = elim (strip_prefix (o ++ codes ".") mid) [
  | some rest ↦ some (o, rest)
  | none ↦ split_org mid orgs
]

parse_unit : Text → Text → List Text → Option (Text × Text)
parse_unit prefix svc orgs =
    let mid = trim_suffix (trim_prefix svc prefix) (codes ".service") in
    if text_eq mid svc then none else split_org mid orgs

unfoldable pub parse_unit_name : Text → List Text → Option (Text × Text)
unfolding parse_unit split_org
parse_unit_name svc orgs = parse_unit (codes "actions.runner.") svc orgs

unfoldable pub parse_ephemeral_unit_name : Text → List Text → Option (Text × Text)
unfolding parse_unit split_org
parse_ephemeral_unit_name svc orgs = parse_unit ephemeral_unit_prefix svc orgs

-- len(orgsByLen[i]) > len(orgsByLen[j])
abbrev pub longer : Text → Text → Bool
longer a b = ltb (length b) (length a)

-- orgsByLen: the configured orgs, the longest first
unfoldable pub orgs_by_len : List Text → List Text
unfolding sort_slice
orgs_by_len orgs = sort_slice longer orgs
