-- ===== src/Runner/Names.antt =====
-- The unit and registration names of internal/runner/orchestrator.go.
pub mod RoundTrip
use srm.Prelude.{
  ℕ, ◌≡◌, Bool, Option, none, some, [], ◌∷◌, ◌++◌, if◌then◌else◌, Text, codes, text_eq,
}
use srm.Prelude.Strings.{has_prefix, trim_prefix, cut_at}

abbrev pub ephemeral_unit_prefix : Text
ephemeral_unit_prefix = codes "actions.ephemeral."

abbrev pub ephemeral_name_prefix : Text
ephemeral_name_prefix = codes "srm-eph-"

-- (*ubuntu).svcName
unfoldable pub svc_name : Text → Text → Text
svc_name org name = codes "actions.runner." ++ (org ++ (codes "." ++ (name ++ codes ".service")))

unfoldable pub ephemeral_svc_name : Text → Text → Text
ephemeral_svc_name org slot =
    ephemeral_unit_prefix ++ (org ++ (codes "." ++ (slot ++ codes ".service")))

unfoldable pub ephemeral_runner_name : Text → Text → Text → Text
ephemeral_runner_name org slot token =
    ephemeral_name_prefix ++ (org ++ (codes "-" ++ (slot ++ (codes "-" ++ token))))

unfoldable pub is_ephemeral_runner_name : Text → Bool
is_ephemeral_runner_name name = has_prefix name ephemeral_name_prefix

-- rest[:i] for i := strings.IndexByte(rest, '-'), if i > 0
abbrev before_dash : Option (Text × Text) → Option Text
before_dash none = none
before_dash (some ([], token)) = none
before_dash (some (c ∷ slot, token)) = some (c ∷ slot)

unfoldable pub ephemeral_slot_from_name : Text → Text → Option Text
ephemeral_slot_from_name name org =
    let rest = trim_prefix name (ephemeral_name_prefix ++ (org ++ codes "-")) in
    if text_eq rest name then none else before_dash (cut_at b'-' rest)
