-- ===== src/Examples/Names.antt =====
-- Unit names, minted names, versions and asset names at concrete inputs.
use srm.Prelude.{
  ◌≡◌, ◌≢◌, refl, ◌↔◌, true, none, some, List, [], ◌∷◌, ◌++◌, arith, Memᴰ, Text, codes,
}
use srm.Prelude.Int.{negsuc}
use srm.Prelude.Strings.{strip_prefix, has_prefix, has_suffix}
use srm.Runner.Names.{
  svc_name, ephemeral_runner_name, is_ephemeral_runner_name, ephemeral_slot_from_name,
}
use srm.Runner.Names.RoundTrip.{slot_from_name-ephemeral_runner_name}
use srm.Runner.Versions.{compare_versions, version_field, split, atoi, version_from_url}
use srm.Runner.Versions.Order.{IsOlder, fields, compare_versions-lt_iff}
use srm.Service.UnitNames.{parse_unit_name, orgs_by_len, split_org}
use srm.Service.UnitNames.RoundTrip.{parse_unit_name-svc_name}

abbrev acme : Text
acme = codes "acme"

abbrev orgs : List Text
orgs = acme ∷ codes "acme-eu" ∷ []

parse_unit_name-svc_name_example :
    parse_unit_name (svc_name acme (codes "ci.1")) (orgs_by_len orgs) ≡ some (acme, codes "ci.1")
parse_unit_name-svc_name_example =
    parse_unit_name-svc_name acme (codes "ci.1") orgs (Memᴰ.head refl) (omega arith)

abbrev dotted : List Text
dotted = acme ∷ codes "acme.eu" ∷ []

split_org-dotted :
    split_org (codes "acme.eu.ci") (orgs_by_len dotted) ≡ some (codes "acme.eu", codes "ci")
unfolding split_org orgs_by_len strip_prefix
split_org-dotted = refl

fits : strip_prefix (acme ++ codes ".") (codes "acme.eu.ci") ≢ none
unfolding strip_prefix
fits e = cc

slot_from_name_example :
    (is_ephemeral_runner_name (ephemeral_runner_name (codes "acme-eu") (codes "3") (codes "f0-1"))
      ≡ true)
    × (ephemeral_slot_from_name
          (ephemeral_runner_name (codes "acme-eu") (codes "3") (codes "f0-1"))
          (codes "acme-eu")
        ≡ some (codes "3"))
slot_from_name_example =
    slot_from_name-ephemeral_runner_name (codes "acme-eu") (codes "3") (codes "f0-1") (λ e. cc)
      (omega arith)

older : compare_versions (codes "2.9.0") (codes "2.10.0") ≡ negsuc 0
unfolding compare_versions version_field split atoi
older = refl

oldest : compare_versions (codes "2.3") (codes "2.9.0") ≡ negsuc 0
unfolding compare_versions version_field split atoi
oldest = refl

unreadable_is_zero : compare_versions (codes "x.y.z") (codes "2.335.1") ≡ negsuc 0
unfolding compare_versions version_field split atoi
unreadable_is_zero = refl

compare_versions-lt_iff_example :
    (compare_versions (codes "2.9.0") (codes "2.10") ≡ negsuc 0)
    ↔ IsOlder (fields (codes "2.9.0")) (fields (codes "2.10"))
compare_versions-lt_iff_example = compare_versions-lt_iff (codes "2.9.0") (codes "2.10")

version_from_url_other_os :
    version_from_url (codes "https://h/actions-runner-win-x64-2.3.zip?x=1") ≡ some []
unfolding version_from_url has_prefix has_suffix
version_from_url_other_os = refl
