-- ===== src/Examples/SubIds.antt =====
-- The block of the user ci, beside that of another.
use srm.Prelude.{ℕ, ◌≡◌, refl, ◌∷◌, [], ◌++◌, ◌≤◌, All, arith, Text, codes, text_eq}
use srm.Runner.Versions.{split, atoi}
use srm.Runner.Units.Marker.{trim_space}
use srm.Prelude.Strings.{has_suffix}
use srm.Prelude.Decimal.{decimal}
use srm.Runner.SubIds.{sub_id_base, bytes, write, unchanged, ended, new_line, ensure_sub_id_file}
use srm.Runner.SubIds.Ranges.{EndsBefore, ensure_sub_id_file_disjoint}
use srm.Runner.SubIds.Idempotent.{IsUserName, ensure_sub_id_file_idem}

abbrev ci : Text
ci = codes "ci"

abbrev body : Text
body = codes "srm:100000:65536"

abbrev out : Text
out = body ++ 10 ∷ (codes "ci:165536:65536" ++ 10 ∷ [])

written : ensure_sub_id_file ci (bytes body) ≡ write out
unfolding ensure_sub_id_file split trim_space text_eq has_suffix decimal atoi
written = refl

ensure_sub_id_file_disjoint_example :
    (n : ℕ) × (out ≡ ended body ++ (new_line ci n ++ 10 ∷ []))
    × (sub_id_base ≤ n)
    × All (EndsBefore n) (split 10 body)
ensure_sub_id_file_disjoint_example = ensure_sub_id_file_disjoint ci body out written

ci-IsUserName : IsUserName ci
ci-IsUserName = ground arith

ensure_sub_id_file_idem_example : ensure_sub_id_file ci (bytes out) ≡ unchanged
ensure_sub_id_file_idem_example = ensure_sub_id_file_idem ci body out ci-IsUserName written
