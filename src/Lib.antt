-- ===== src/Lib.antt =====
-- srm: self-hosted GitHub Actions runners, their agents, units and registrations. This is a model of the
-- parts of the program that decide what is done to a host and to GitHub, with theorems about them.
--
-- Parts, and where they are modelled (paths are from the repository's root):
--
--   Core               internal/core/types.go: Runner, Label, RunnerProfile, DependencyManifest
--   Config             internal/config/config.go: the record Config; Config/Load is Load with migrate and
--                      validateIsolation, Config/Users is slug, RunnerUserFor and validUserName,
--                      Config/Resources is ResourcesFor, merge and the cache roots
--   JobLog             internal/joblog/joblog.go: List, Prune, Write and the paths of the store
--   Runner.Names       internal/runner/orchestrator.go: svcName, EphemeralSvcName, EphemeralRunnerName,
--                      EphemeralSlotFromName
--   Runner.Versions    internal/runner/download.go: DownloadURL, VersionFromURL, CompareVersions
--   Runner.Agent       internal/runner/orchestrator.go: UpgradeRunnerAgent and the payload's snapshot
--   Runner.Job         internal/runner/orchestrator.go: RunJob with reclaimPath and ephemeralJobEnv
--   Runner.SubIds      internal/runner/orchestrator.go: ensureSubIDFile
--   Runner.Units       internal/runner/orchestrator.go: renderDropIn, renderEphemeralUnit (Render), and how
--                      internal/runner/inspect.go compares them with the disk (Marker)
--   Service.UnitNames  internal/service/reconcile.go: parseUnitName, parseEphemeralUnitName
--   Service.Manifest   internal/service/state.go: the state manifest; Manifest/Disk is LoadState, Save and
--                      mutateState
--   Service.Drift      internal/service/reconcile.go: classifyPersistent, classifyEphemeral, ClassLabel
--   Service.Reconcile  internal/service/reconcile.go: Reconcile. Github is ListAllRunners
--                      (internal/service/manager.go) and the two maps made of it, Units the loops over units
--                      and lanes, Ghosts the loop over GitHub's runners with maybeReapGhost and reapGhost,
--                      Repair is repairRunner
--   Service.Upgrade    internal/service/upgrade.go: upgradeOnePersistent with resolveTarget, the gates
--                      (Gates), and the whole pass (Pass)
--   Service.Snapshot   internal/service/snapshot.go: MergeHostTier and the counts; Fast is FleetFast
--   Service.Slots      internal/service/ephemeral.go: allocateEphemeralSlots, slotLess
--   Service.JitFile    internal/runner/orchestrator.go: PendingJIT, RecordJIT
--   Service.Cycle      internal/service/ephemeral.go: RunCycle, with ClearJIT
--                      (internal/runner/orchestrator.go) and the sidecar of captureJobLog
--                      (internal/service/joblog.go)
--   Service.Lifecycle  what changes runners, lanes and groups: Access is requireOrg and client
--                      (internal/service/manager.go), the groups and the download
--                      (internal/service/deploy.go) and applyProfileDefaults (internal/service/profiles.go),
--                      Runners is CreateRunners, RecreateRunner and DestroyRunner
--                      (internal/service/deploy.go), Lanes the same of lanes
--                      (internal/service/ephemeral.go), Groups is internal/service/groups.go with
--                      DeleteRunner and SetRetention, Commands all of them as one type
--   Service.Bulk       internal/service/bulk.go: BulkDelete, as goroutines that take their steps in any order
--   Service.Uninstall  internal/service/uninstall.go: Plan is what would be removed, with Targets for
--                      uninstallBaseTargets, Gate the drain gate, Teardown the five steps, Run Uninstall
--   Prelude            shared names, Go's strings as lists of bytes or runes, sort.Slice, Go's integers
--   Examples           the theorems at concrete inputs, and runs of the definitions
--
-- How they interact: Reconcile reads the configured orgs, GitHub's lists and the units of the host
-- (World), finds the org of each unit (UnitNames), classifies it (Drift), and changes the host or GitHub;
-- each call that changes something is an Action in the log of the Pass, the last one first. The upgrade
-- pass reads the manifest, asks for a download (Versions), calls UpgradeRunnerAgent for one runner after
-- the other (Agent; the pass sees its answer only), and saves the manifest after each. A cycle of a lane
-- reaps what the last one left, mints a registration, writes its id to the disk and runs one job (Cycle,
-- over Runner.Job). The operations of Lifecycle are written in a monad Op of state and failure, whose
-- Trail holds the calls that change GitHub, the host or the manifest; they ask Slots for free lanes and
-- annotate the Manifest. The uninstall runs the destroying ones for every unit in its scope. FleetFast
-- fuses GitHub's list with the manifest, and MergeHostTier adds the report of Reconcile.
--
-- Parameters: what GitHub, systemd, the clock and the file system answer are the fields of World, Host,
-- Answers, Faults, Fleet, Machine, Setup and the records Site; where an answer may change between two
-- calls it is a function of a time that each call moves on. encoding/json is the record Json, and koanf is
-- the function in File.overlay. What is asked of them is that a manifest's JSON text is read back as that
-- manifest (Manifest), that errgroup keeps to a limit and starts one goroutine under any but 0 (Bulk),
-- that the receiver of the progress channel takes each event (Bulk), that GitHub's ids fit an int64
-- (Cycle), and that renames or removals succeed where a result says so (Runner.Agent, JobLog). A call of
-- DeleteRunner is taken to return.
--
-- Bounds and fuel: numbers are native; GitHub's ids are not negative, with 0 for unknown. strconv.Atoi
-- keeps its 64-bit range (Runner.Versions.atoi), and int64 fields that the program compares are signed
-- (Prelude.Int). Lists give every other loop. Two loops have fuel: migrate has one round for the one
-- version below the current one, and allocateEphemeralSlots has as many as there are slots to find and
-- occupied slots; that this is enough is among the results. sort.Slice is an insertion sort; Go leaves the
-- order of ties open, and the results are stated so that they hold for any order of ties.
--
-- Not modelled: the terminal interface, the command line, the GitHub client, secrets, provisioning, the
-- Windows build, how the daemon of rootless Docker is started and stopped, how the orchestrator creates a
-- runner or a lane on the host, and what Inspect reads of a unit from systemctl.
mod Prelude
pub mod Core
pub mod Config
pub mod JobLog
pub mod Runner
pub mod Service
mod Examples
