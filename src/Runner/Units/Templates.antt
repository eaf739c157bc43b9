-- ===== src/Runner/Units/Templates.antt =====
-- The texts that the units of internal/runner/orchestrator.go are made of, one line each.
use srm.Prelude.{List, [], ◌∷◌, ◌++◌, Text, codes}

-- One line of a unit
abbrev pub line : Text → Text
line t = t ++ 10 ∷ []

-- What a strings.Builder holds after these writes
abbrev pub concat : List Text → Text
concat [] = []
concat (t ∷ texts) = t ++ concat texts

abbrev pub unlines : List Text → Text
unlines [] = []
unlines (t ∷ lines) = line t ++ unlines lines

abbrev pub hardening_drop_in : List Text
hardening_drop_in =
    codes "[Service]"
    ∷ codes "# srm-dropin-v1"
    ∷ codes "# Managed by srm. Defense-in-depth hardening that is safe for general CI."
    ∷ codes "ProtectHome=true"
    ∷ codes "PrivateTmp=true"
    ∷ codes "ProtectControlGroups=true"
    ∷ codes "ProtectKernelTunables=true"
    ∷ codes "ProtectKernelModules=true"
    ∷ codes "ProtectKernelLogs=true"
    ∷ codes "ProtectClock=true"
    ∷ codes "ProtectHostname=true"
    ∷ codes "LockPersonality=true"
    ∷ codes "RestrictRealtime=true"
    ∷ codes "# Stricter, opt-in (break sudo/apt - enable only if your jobs never need them):"
    ∷ codes "#   NoNewPrivileges=true"
    ∷ codes "#   ProtectSystem=strict"
    ∷ codes "#   ReadWritePaths=<runner dir>"
    ∷ codes "#   RestrictSUIDSGID=true"
    ∷ []

abbrev pub ephemeral_hardening : List Text
ephemeral_hardening =
    codes "# srm-ephemeral-v2"
    ∷ codes "# Managed by srm. Ephemeral-lane hardening (stricter than the persistent drop-in)."
    ∷ codes "NoNewPrivileges=true"
    ∷ codes "ProtectProc=invisible"
    ∷ codes "ProtectHome=true"
    ∷ codes "PrivateTmp=true"
    ∷ codes "ProtectControlGroups=true"
    ∷ codes "ProtectKernelTunables=true"
    ∷ codes "ProtectKernelModules=true"
    ∷ codes "ProtectKernelLogs=true"
    ∷ codes "ProtectClock=true"
    ∷ codes "ProtectHostname=true"
    ∷ codes "LockPersonality=true"
    ∷ codes "RestrictRealtime=true"
    ∷ codes "LimitCORE=0"
    ∷ []

abbrev pub ephemeral_hardening_din_d : List Text
ephemeral_hardening_din_d =
    codes "# srm-ephemeral-v2"
    ∷ codes "# Managed by srm. Ephemeral-lane hardening, rootless-DinD variant: relaxed so the"
    ∷ codes "# nested rootless build containers can start (mount /proc, sethostname, cgroupfs,"
    ∷ codes "# newuidmap). The job still runs as the unprivileged, user-namespaced per-org user."
    ∷ codes "ProtectControlGroups=false"
    ∷ codes "Delegate=yes"
    ∷ codes "ProtectClock=true"
    ∷ codes "LockPersonality=true"
    ∷ codes "RestrictRealtime=true"
    ∷ codes "LimitCORE=0"
    ∷ []
