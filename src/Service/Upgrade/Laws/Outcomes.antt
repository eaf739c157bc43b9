-- ===== src/Service/Upgrade/Laws/Outcomes.antt =====
-- What comes of a runner once its target is known.
use srm.Prelude.{
  none, Option, some, [], Text, ◌≢◌, ◌∙◌, ℕ, suc, ◌≡◌, refl, ◌⊎◌, inl, inr, Bool, true, false, ◌∷◌,
  arith, Bool-cases,
}
use srm.Prelude.Int.{pos, ltb_ℤ}
use srm.Runner.Units.Marker.{current_drop_in_version}
use srm.Runner.Versions.{compare_versions, download_url, version_from_url}
use srm.Service.Manifest.{RunnerRecord, put}
use srm.Service.Reconcile.Model.{RunnerWithOrg}
use srm.Service.Upgrade.Model.{
  Skip, no_skip, busy, dry_run_skip, Opts, UpgradeResult, Download, AgentReply, swapped_ok,
  swap_error, swapped, Host, State,
}
use srm.Service.Upgrade.Gates.{id_mismatch_skip, version_gate_skip, version_gate_skip-eq_no_skip}
use srm.Service.Upgrade.{
  Target, stop, install, gated, try_install, swap, after_swap, upgraded_record, live_busy,
}

-- The two ids do not contradict each other.
abbrev pub Agree : ℕ → ℕ → Type 0
Agree recorded live = (recorded ≡ 0) ⊎ (live ≡ 0) ⊎ (recorded ≡ live)

pub id_mismatch_skip-Agree :
    (recorded live : ℕ) → id_mismatch_skip recorded live ≡ no_skip → Agree recorded live
unfolding id_mismatch_skip
id_mismatch_skip-Agree recorded live h = ground arith

-- Nothing was done to a runner.
pub record IsUntouched (s s' : State) (res : UpgradeResult) : Type 0 where
  pub same_log : s'.log ≡ s.log
  pub same_manifest : s'.manifest ≡ s.manifest
  pub not_upgraded : res.upgraded ≡ false

-- The version gate, of the recorded version and the target
abbrev pub GateIsOpen : Opts → Text → Text → Type 0
GateIsOpen opts from to =
    (opts.force ≡ true)
    ⊎ (from ≡ [])
    ⊎ (from ≢ to)
      × ((opts.rollback ≡ true) ⊎ (to ≡ []) ⊎ (ltb_ℤ (compare_versions to from) (pos 0) ≡ false))

-- What the manifest has of a runner with the record `rec` after its upgrade to the version `to`; an id is
-- recorded if there was none.
pub record IsUpgraded (h : Host) (rec : RunnerRecord) (to : Text) (id : ℕ) (entry : RunnerRecord)
    : Type 0 where
  pub same_kind : entry.kind ≡ rec.kind
  pub same_org : entry.org ≡ rec.org
  pub same_name : entry.name ≡ rec.name
  pub same_configured : entry.configured_at ≡ rec.configured_at
  pub agent_version : entry.agent_version ≡ to
  pub previous_version : entry.previous_version ≡ rec.agent_version
  pub template_version : entry.template_version ≡ current_drop_in_version
  pub last_upgrade : entry.last_upgrade_at ≡ h.now_stamp
  pub github_id :
      (rec.github_runner_id ≢ 0) × (entry.github_runner_id ≡ rec.github_runner_id)
      ⊎ (rec.github_runner_id ≡ 0) × (entry.github_runner_id ≡ id)

-- What is installed, and its version: the recorded one before in a roll back, or else what was downloaded
abbrev pub IsAim : Opts → RunnerRecord → Download → Text → Type 0
IsAim opts rec dl to =
    (opts.rollback ≡ true)
      × (to ≢ [])
      × (to ≡ rec.previous_version)
      × (dl.url ≡ download_url to)
      × (dl.sha256 ≡ [])
    ⊎ (opts.rollback ≡ false)
      × ((version_from_url dl.url ≡ some to) ⊎ (version_from_url dl.url ≡ none) × (to ≡ []))

-- The agent of a runner was swapped, or its upgrade failed: every gate was open.
pub record WasSwapped (h : Host) (opts : Opts) (row : RunnerWithOrg) (rec : RunnerRecord) (id : ℕ)
    (s s' : State) (res : UpgradeResult) : Type 0 where
  pub not_dry : opts.dry_run ≡ false
  pub from_recorded : res.from ≡ rec.agent_version
  pub gate : GateIsOpen opts rec.agent_version res.to
  pub time : ℕ
  pub not_seen_busy : h.get_runner_busy time row.org row.runner.id ≢ some true
  pub download : Download
  pub aim : IsAim opts rec download res.to
  pub one_swap : s'.log ≡ swapped res.org res.name download ∷ s.log
  pub recorded :
      (res.upgraded ≡ true)
        × ((entry : RunnerRecord) × IsUpgraded h rec res.to id entry
            × (s'.manifest ≡ put s.manifest entry))
      ⊎ (res.upgraded ≡ false) × (s'.manifest ≡ s.manifest)

unfoldable pub Outcome :
    Host → Opts → RunnerWithOrg → RunnerRecord → ℕ → State → UpgradeResult × State → Type 0
Outcome h opts row rec id s (res, s') = IsUntouched s s' res ⊎ WasSwapped h opts row rec id s s' res

-- The flag of the result that a target carries.
abbrev pub upgraded_flag : Target → Bool
upgraded_flag (stop res) = res.upgraded
upgraded_flag (install dl res) = res.upgraded

-- The version that the result of a target names as the installed one
abbrev pub target_from : Target → Text
target_from (stop res) = res.from
target_from (install dl res) = res.from

-- A target to install is what the arguments aim at.
abbrev pub Aims : Opts → RunnerRecord → Target → Type 0
Aims opts rec (stop res) = Unit {0}
Aims opts rec (install dl res) = IsAim opts rec dl res.to

module _ (h : Host) (opts : Opts) (row : RunnerWithOrg) (rec : RunnerRecord) (id : ℕ) where
  upgraded_record-IsUpgraded :
      (res : UpgradeResult)
      → res.from ≡ rec.agent_version
      → IsUpgraded h rec res.to id (upgraded_record h rec res id)
  upgraded_record-IsUpgraded res f = record {
    same_kind = refl;
    same_org = refl;
    same_name = refl;
    same_configured = refl;
    agent_version = refl;
    previous_version = f;
    template_version = refl;
    last_upgrade = refl;
    github_id = ground arith;
  }

  not_busy_ne : (b : Option Bool) → live_busy b ≡ false → b ≢ some true
  not_busy_ne b h e = ground arith

  after_swap-recorded :
      (res : UpgradeResult) (s : State) (r : AgentReply)
      → res.upgraded ≡ false
      → res.from ≡ rec.agent_version
      → ((after_swap h rec res id s r).0.upgraded ≡ true)
          × ((entry : RunnerRecord) × IsUpgraded h rec (after_swap h rec res id s r).0.to id entry
              × ((after_swap h rec res id s r).1.manifest ≡ put s.manifest entry))
        ⊎ ((after_swap h rec res id s r).0.upgraded ≡ false)
          × ((after_swap h rec res id s r).1.manifest ≡ s.manifest)
  unfolding after_swap
  after_swap-recorded res s swapped_ok u from =
      inl (refl, (upgraded_record h rec res id, upgraded_record-IsUpgraded res from, refl))
  after_swap-recorded res s (swap_error down) u from = inr (u, refl)

  after_swap-log :
      (res : UpgradeResult) (s : State) (r : AgentReply)
      → ((after_swap h rec res id s r).1.log ≡ s.log)
        × ((after_swap h rec res id s r).0.org ≡ res.org)
        × ((after_swap h rec res id s r).0.name ≡ res.name)
        × ((after_swap h rec res id s r).0.from ≡ res.from)
        × ((after_swap h rec res id s r).0.to ≡ res.to)
  unfolding after_swap
  after_swap-log res s swapped_ok = (refl, refl, refl, refl, refl)
  after_swap-log res s (swap_error down) = (refl, refl, refl, refl, refl)

  swap-WasSwapped :
      (res : UpgradeResult) (dl : Download) (s : State)
      → res.upgraded ≡ false
      → res.from ≡ rec.agent_version
      → IsAim opts rec dl res.to
      → opts.dry_run ≡ false
      → version_gate_skip res.from res.to opts.force opts.rollback ≡ no_skip
      → live_busy (h.get_runner_busy s.time row.org row.runner.id) ≡ false
      → WasSwapped h opts row rec id s
          (swap h rec res id dl (record s { time = suc s.time })).1
          (swap h rec res id dl (record s { time = suc s.time })).0
  unfolding swap
  swap-WasSwapped res dl s u from aim dry gate idle =
      let s1 : State = record s {
        time = suc (suc s.time);
        log = swapped res.org res.name dl ∷ s.log;
      } in
      let reply = h.upgrade_runner_agent (suc s.time) res.org res.name dl in
      let (l, o, n, f, t) = after_swap-log res s1 reply in
      let opened = (version_gate_skip-eq_no_skip res.from res.to opts.force opts.rollback).0 in
      record {
        not_dry = dry;
        from_recorded = f ∙ from;
        gate = rw (t, ← from) (opened gate);
        time = s.time;
        not_seen_busy = not_busy_ne (h.get_runner_busy s.time row.org row.runner.id) idle;
        download = dl;
        aim = rw t aim;
        one_swap = rw (l, o, n) refl;
        recorded = after_swap-recorded res s1 reply u from;
      }

  untouched :
      (s : State) (res : UpgradeResult)
      → res.upgraded ≡ false
      → Outcome h opts row rec id s (res, s)
  unfolding Outcome
  untouched s res u = inl (record { same_log = refl; same_manifest = refl; not_upgraded = u })

  open_gate-Outcome :
      (s : State) (dl : Download) (res : UpgradeResult)
      → res.upgraded ≡ false
      → res.from ≡ rec.agent_version
      → IsAim opts rec dl res.to
      → version_gate_skip res.from res.to opts.force opts.rollback ≡ no_skip
      → Outcome h opts row rec id s (gated h opts row rec id s dl res no_skip)
  unfolding gated
  open_gate-Outcome s dl res u from aim gate = elim (Bool-cases opts.dry_run) [
    | inl d ↦ simp d (untouched s (record res { skipped = dry_run_skip res.from res.to }) u)
    | inr d ↦ elim (Bool-cases (live_busy (h.get_runner_busy s.time row.org row.runner.id))) [
      | inl b ↦
          simp (d, b)
            (unfold Outcome in
              inl (record { same_log = refl; same_manifest = refl; not_upgraded = u }))
      | inr b ↦ simp (d, b) (unfold Outcome in inr (swap-WasSwapped res dl s u from aim d gate b))
    ]
  ]

  gated-Outcome :
      (s : State) (dl : Download) (res : UpgradeResult) (skip : Skip)
      → res.upgraded ≡ false
      → res.from ≡ rec.agent_version
      → IsAim opts rec dl res.to
      → version_gate_skip res.from res.to opts.force opts.rollback ≡ skip
      → Outcome h opts row rec id s (gated h opts row rec id s dl res skip)
  gated-Outcome s dl res no_skip u from aim gate = open_gate-Outcome s dl res u from aim gate
  gated-Outcome s dl res busy u from aim gate =
      unfold gated in untouched s (record res { skipped = busy }) u
  gated-Outcome s dl res skip u from aim gate =
      unfold gated in untouched s (record res { skipped = skip }) u

  pub try_install-Outcome :
      (s : State) (t : Target)
      → upgraded_flag t ≡ false
      → target_from t ≡ rec.agent_version
      → Aims opts rec t
      → Outcome h opts row rec id s (try_install h opts row rec id s t)
  unfolding try_install
  try_install-Outcome s (stop res) u from aim = untouched s res u
  try_install-Outcome s (install dl res) u from aim =
      gated-Outcome s dl res (version_gate_skip res.from res.to opts.force opts.rollback) u from aim
        refl
