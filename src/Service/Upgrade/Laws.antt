-- ===== src/Service/Upgrade/Laws.antt =====
-- When an agent is swapped, and what the manifest records.
pub mod Outcomes
use srm.Prelude.{
  ℕ, suc, ◌≡◌, ◌≢◌, refl, ◌∙◌, ◌⊎◌, ◌↔◌, inl, inr, Bool, true, false, Option, none, some, [], ◌∷◌,
  if◌then◌else◌, arith, Bool-cases, Option-cases, Text, text_eq_iff, text_eq,
}
use srm.Prelude.Int.{pos, ltb_ℤ}
use srm.Runner.Versions.{compare_versions, download_url}
use srm.Service.Manifest.{persistent, RunnerRecord, get, put}
use srm.Service.Manifest.Laws.{get-key}
use srm.Service.Reconcile.Model.{RunnerWithOrg}
use srm.Service.Upgrade.Model.{
  Skip, no_skip, busy, dry_run_skip, Opts, UpgradeResult, Download, AgentReply, swapped_ok,
  swap_error, swapped, Host, State,
}
use srm.Service.Upgrade.Gates.{id_mismatch_skip, version_gate_skip}
use srm.Service.Upgrade.{
  record_or_new, recorded_id, result, Target, stop, install, resolve_target, gated, identified,
  try_install, swap, after_swap, upgraded_record, upgrade_one_persistent, live_busy, resolve,
  rollback_target, forward_target,
}
use srm.Service.Upgrade.Keys.{IsFor, upgrade_one-IsFor}
use Outcomes.{
  target_from, Aims, Agree, id_mismatch_skip-Agree, IsUntouched, WasSwapped, Outcome, upgraded_flag,
  try_install-Outcome,
}

resolve-same :
    (h : Host) (target org : Text) (s : State)
    → ((resolve h target org s).1.log ≡ s.log) × ((resolve h target org s).1.manifest ≡ s.manifest)
unfolding resolve
resolve-same h target org s = ground arith

resolve_target-same :
    (h : Host) (opts : Opts) (target org : Text) (res : UpgradeResult) (rec : RunnerRecord)
    (s : State)
    → res.upgraded ≡ false
    → ((resolve_target h opts target org res rec s).1.log ≡ s.log)
      × ((resolve_target h opts target org res rec s).1.manifest ≡ s.manifest)
      × (upgraded_flag (resolve_target h opts target org res rec s).0 ≡ false)
      × (target_from (resolve_target h opts target org res rec s).0 ≡ res.from)
      × Aims opts rec (resolve_target h opts target org res rec s).0
unfolding resolve_target
resolve_target-same h opts target org res rec s u = elim (Bool-cases opts.rollback) [
  | inl e ↦ simp e (refl, refl, rollback_flag, rollback_from, rollback_aim e)
  | inr e ↦ simp e (
    (resolve-same h target org s).0,
    (resolve-same h target org s).1,
    forward_flag (resolve h target org s).0,
    forward_from (resolve h target org s).0,
    forward_aim e (resolve h target org s).0,
  )
]
  where
    forward_flag : (dl : Option Download) → upgraded_flag (forward_target res dl) ≡ false
    forward_flag none = u
    forward_flag (some dl) = u

    forward_from : (dl : Option Download) → target_from (forward_target res dl) ≡ res.from
    forward_from none = refl
    forward_from (some dl) = refl

    forward_aim :
        opts.rollback ≡ false → (dl : Option Download) → Aims opts rec (forward_target res dl)
    forward_aim e none = tt
    forward_aim e (some dl) = inr (e, ground arith)

    rollback_aim : opts.rollback ≡ true → Aims opts rec (rollback_target h rec res)
    rollback_aim e = elim (Bool-cases (text_eq rec.previous_version [])) [
      | inl p ↦ rw p tt
      | inr p ↦
          elim (Bool-cases (
            h.cached_agent_tarball
              (record { url = download_url rec.previous_version; sha256 = [] }))) [
                | inr c ↦ rw (p, c) tt
                | inl c ↦ rw (p, c) (inl (e, ne_nil p, refl, refl, refl))
              ]
    ]
      where
        ne_nil : text_eq rec.previous_version [] ≡ false → rec.previous_version ≢ []
        ne_nil p q = cc (p, (text_eq_iff rec.previous_version []).1 q)

    rollback_from : target_from (rollback_target h rec res) ≡ res.from
    rollback_from = ground arith

    rollback_flag : upgraded_flag (rollback_target h rec res) ≡ false
    rollback_flag = ground arith

-- An outcome seen from an earlier state with the same log and manifest.
from_earlier :
    (h : Host) (opts : Opts) (row : RunnerWithOrg) (rec : RunnerRecord) (id : ℕ) (s0 s : State)
    (out : UpgradeResult × State)
    → s.log ≡ s0.log
    → s.manifest ≡ s0.manifest
    → Outcome h opts row rec id s out
    → Outcome h opts row rec id s0 out
unfolding Outcome
from_earlier h opts row rec id s0 s (res, s') l m (inl o) = inl (record {
  same_log = o.same_log ∙ l;
  same_manifest = o.same_manifest ∙ m;
  not_upgraded = o.not_upgraded;
})
from_earlier h opts row rec id s0 s (res, s') l m (inr o) = inr (record {
  not_dry = o.not_dry;
  from_recorded = o.from_recorded;
  gate = o.gate;
  time = o.time;
  not_seen_busy = o.not_seen_busy;
  aim = o.aim;
  download = o.download;
  one_swap = rw (← l) o.one_swap;
  recorded = elim o.recorded [
    | inl (u, (entry, i, p)) ↦ inl (u, (entry, i, rw (← m) p))
    | inr (u, p) ↦ inr (u, p ∙ m)
  ];
})

-- The record of a runner in the manifest, or the fresh one.
abbrev pub record_of : State → RunnerWithOrg → RunnerRecord
record_of s row =
    record_or_new row.org row.runner.name (get s.manifest persistent row.org row.runner.name)

-- It is what the manifest has, or a fresh record of nothing if the manifest has none.
abbrev pub IsRecordOf : State → RunnerWithOrg → RunnerRecord → Type 0
IsRecordOf s row rec =
    (get s.manifest persistent row.org row.runner.name ≡ some rec)
    ⊎ (get s.manifest persistent row.org row.runner.name ≡ none)
      × (rec.kind ≡ persistent)
      × (rec.org ≡ row.org)
      × (rec.name ≡ row.runner.name)
      × (rec.github_runner_id ≡ 0)
      × (rec.agent_version ≡ [])

record_of-IsRecordOf : (s : State) (row : RunnerWithOrg) → IsRecordOf s row (record_of s row)
unfolding record_or_new
record_of-IsRecordOf s row =
    elim (Option-cases (get s.manifest persistent row.org row.runner.name)) [
      | inl e ↦ rw e (inr (refl, refl, refl, refl, refl, refl))
      | inr (rec, e) ↦ rw e (inl refl)
    ]

pub record_key :
    (s : State) (row : RunnerWithOrg) (rec : RunnerRecord)
    → IsRecordOf s row rec
    → (rec.org ≡ row.org) × (rec.name ≡ row.runner.name)
record_key s row rec (inl e) = get-key s.manifest persistent row.org row.runner.name rec e
record_key s row rec (inr (e, k, o, n, i, v)) = (o, n)

-- The id that the manifest has, or else the one in the agent's own file, or 0 if there is none
abbrev pub IsKnownId : Host → RunnerRecord → RunnerWithOrg → ℕ → Type 0
IsKnownId h rec row id =
    (rec.github_runner_id ≢ 0) × (id ≡ rec.github_runner_id)
    ⊎ (rec.github_runner_id ≡ 0)
      × ((h.agent_id row.org row.runner.name ≡ some id)
          ⊎ (h.agent_id row.org row.runner.name ≡ none) × (id ≡ 0))

recorded_id-IsKnownId :
    (h : Host) (rec : RunnerRecord) (row : RunnerWithOrg)
    → IsKnownId h rec row (recorded_id h rec row.org row.runner.name)
unfolding recorded_id
recorded_id-IsKnownId h rec row = ground arith

-- What may come of one runner: nothing, or an attempted swap of an idle one that is known by its id.
abbrev pub OneOutcome : Host → Opts → RunnerWithOrg → State → UpgradeResult × State → Type 0
OneOutcome h opts row s (res, s') =
    IsUntouched s s' res
    ⊎ (row.runner.busy ≡ false)
      × ((rec : RunnerRecord) × (id : ℕ) × IsRecordOf s row rec
          × IsKnownId h rec row id
          × Agree id row.runner.id
          × WasSwapped h opts row rec id s s' res)

identified-Outcome :
    (h : Host) (opts : Opts) (target : Text) (row : RunnerWithOrg) (rec : RunnerRecord) (id : ℕ)
    (res : UpgradeResult) (s : State) (skip : Skip)
    → res.upgraded ≡ false
    → res.from ≡ rec.agent_version
    → (skip ≢ no_skip)
        × IsUntouched s
            (identified h opts target row rec id res s skip).1
            (identified h opts target row rec id res s skip).0
      ⊎ (skip ≡ no_skip)
        × Outcome h opts row rec id s (identified h opts target row rec id res s skip)
unfolding identified
identified-Outcome h opts target row rec id res s no_skip u from =
    let (l, m, f, k, aim) = resolve_target-same h opts target row.org res rec s u in
    let (t, s') = resolve_target h opts target row.org res rec s in
    inr (
      refl,
      from_earlier h opts row rec id s s' (try_install h opts row rec id s' t) l m
          (try_install-Outcome h opts row rec id s' t f (k ∙ from) aim),
    )
identified-Outcome h opts target row rec id res s busy u from =
    inl ((λ e. cc), record { same_log = refl; same_manifest = refl; not_upgraded = u })
identified-Outcome h opts target row rec id res s _ u from =
    inl ((λ e. cc), record { same_log = refl; same_manifest = refl; not_upgraded = u })

widen :
    (h : Host) (opts : Opts) (row : RunnerWithOrg) (s : State) (out : UpgradeResult × State)
    → row.runner.busy ≡ false
    → Agree (recorded_id h (record_of s row) row.org row.runner.name) row.runner.id
    → Outcome h opts row
        (record_of s row)
        (recorded_id h (record_of s row) row.org row.runner.name)
        s
        out
    → OneOutcome h opts row s out
unfolding Outcome
widen h opts row s (res, s') b a (inl o) = inl o
widen h opts row s (res, s') b a (inr o) = inr (
  b,
  (
    record_of s row,
    recorded_id h (record_of s row) row.org row.runner.name,
    record_of-IsRecordOf s row,
    recorded_id-IsKnownId h (record_of s row) row,
    a,
    o,
  ),
)

unless_busy :
    (h : Host) (opts : Opts) (row : RunnerWithOrg) (s : State) (res : UpgradeResult)
    → res.upgraded ≡ false
    → (out : UpgradeResult × State) (b : Bool) → (b ≡ false → OneOutcome h opts row s out)
    → OneOutcome h opts row s (if b then (res, s) else out)
unless_busy h opts row s res u out true k =
    inl (record { same_log = refl; same_manifest = refl; not_upgraded = u })
unless_busy h opts row s res u out false k = k refl

one_outcome :
    (h : Host) (opts : Opts) (target : Text) (row : RunnerWithOrg) (s : State)
    → OneOutcome h opts row s (upgrade_one_persistent h opts target row s)
unfolding upgrade_one_persistent
one_outcome h opts target row s =
    unless_busy h opts row s (record res { skipped = busy }) refl
      (identified h opts target row rec id res s skip) row.runner.busy
      (λ b. elim (identified-Outcome h opts target row rec id res s skip refl refl) [
        | inl (n, o) ↦ inl o
        | inr (e, o) ↦
            widen h opts row s (identified h opts target row rec id res s skip) b
              (id_mismatch_skip-Agree id row.runner.id e) o
      ])
  where
    rec : RunnerRecord
    rec = record_of s row

    id : ℕ
    id = recorded_id h rec row.org row.runner.name

    res : UpgradeResult
    res = result row.org row.runner.name rec.agent_version

    skip : Skip
    skip = id_mismatch_skip id row.runner.id

-- The result carries the org and the name of the runner. Either nothing is done to the runner: no agent is
-- swapped, the manifest stays as it is, and the result does not say that it was upgraded. Or one swap of
-- its agent is tried, and then the runner was idle in the list and not seen busy when looked at again, the
-- id that this host knows of it and its live id do not contradict each other, the pass is no dry run,
-- and the version that the manifest has of it and the target let the version gate open; if the result says
-- that the runner was upgraded, the manifest is the one before with an entry that has the target as its
-- version, the one recorded before as its previous version, the template's version, the time and the
-- id, and if not it is unchanged. The target is the recorded previous version in a roll back, and else
-- the version of what was downloaded.
pub upgrade_one_persistent-OneOutcome :
    (h : Host) (opts : Opts) (target : Text) (row : RunnerWithOrg) (s : State)
    → IsFor row.org row.runner.name (upgrade_one_persistent h opts target row s).0
      × OneOutcome h opts row s (upgrade_one_persistent h opts target row s)
upgrade_one_persistent-OneOutcome h opts target row s =
    (upgrade_one-IsFor h opts target row s, one_outcome h opts target row s)
