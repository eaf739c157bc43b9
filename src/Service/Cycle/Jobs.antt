-- ===== src/Service/Cycle/Jobs.antt =====
-- What stands before a job in the log of a lane.
use Prim.Native.Nat.{◌^◌}
use srm.Prelude.{
  ◌<◌, false≢true, ℕ, suc, ◌≡◌, refl, Bool, true, false, Option, none, some, List, [], ◌∷◌,
  Bool-cases, inl, inr, Text, if◌then◌else◌,
}
use srm.Prelude.Int.{pos, eqb_ℤ}
use srm.Service.Reconcile.Model.{Reply, deleted, gone, refused}
use srm.Service.Cycle.{
  Event, minted, asked_delete, looked, recorded, ran, captured, paused, Look, found, missing,
  unclear, CycleError, Site, Lane, finish, ask_delete, clear_jit, drop_registration, settle,
  settled, dropped, run_minted, mint_and_run, reap_ghost, cycle_with_client, run_cycle, JitConfig,
  EphemeralParams, after_mint, after_record, note, require_org, JitRequest, or_registered,
  mint_request, run_captured, job_error, job_result,
}
use srm.Service.JitFile.{
  WriteFault, no_fault, no_dir, no_open, unsynced, cut_short, record_jit, pending_jit,
}
use srm.Service.JitFile.RoundTrip.{pending_jit-record_jit}

-- The last events are the minting of `id` and its record in the jit-id file.
abbrev IsRecorded : ℕ → List Event → Type 0
IsRecorded id (recorded i ∷ minted req j ∷ log) = (id ≡ i) × (id ≡ j)
IsRecorded id log = ⊥

-- Every job runs on a registration that was minted and recorded right before, and its id is what the
-- jit-id file gives while it runs.
abbrev pub IsProper : List Event → Type 0
IsProper [] = Unit {0}
IsProper (ran id file ∷ log) = IsRecorded id log × (pending_jit file ≡ pos id) × IsProper log
IsProper (minted _ _ ∷ log) = IsProper log
IsProper (asked_delete _ _ ∷ log) = IsProper log
IsProper (looked _ _ ∷ log) = IsProper log
IsProper (recorded _ ∷ log) = IsProper log
IsProper (captured _ ∷ log) = IsProper log
IsProper (paused ∷ log) = IsProper log

finish-IsProper : (e : Option CycleError) (l : Lane) → IsProper l.log → IsProper (finish e l).1.log
finish-IsProper none l h = h
finish-IsProper (some e) l h = h

dropped-IsProper : (w : Site) (l : Lane) (r : Reply) → IsProper l.log → IsProper (dropped w l r).log
unfolding dropped clear_jit
dropped-IsProper w l deleted h = h
dropped-IsProper w l gone h = h
dropped-IsProper w l (refused e) h = h

settled-IsProper :
    (w : Site) (id : ℕ) (e : Option CycleError) (l : Lane) (k : Look)
    → IsProper l.log
    → IsProper (settled w id e l k).1.log
unfolding settled clear_jit drop_registration
settled-IsProper w id e l missing h = finish-IsProper e (clear_jit w l) h
settled-IsProper w id e l found h =
    let r : Reply = w.delete_reply l.now (pos id) in
    finish-IsProper (or_registered e) (dropped w (ask_delete w (pos id) l) r)
      (dropped-IsProper w (ask_delete w (pos id) l) r h)
settled-IsProper w id e l unclear h = finish-IsProper e l h

-- GitHub's ids fit an int64.
abbrev pub MintsIds : Site → Type 0
MintsIds w =
    (t : ℕ) (req : JitRequest) (jit : JitConfig) → w.mint t req ≡ some jit → jit.runner_id < 2 ^ 63

-- A record that succeeds can be read back.
recorded-pending :
    (fault : WriteFault) (id : ℕ) (file : Option Text)
    → id < 2 ^ 63
    → (record_jit fault id file).1 ≡ true
    → pending_jit (record_jit fault id file).0 ≡ pos id
unfolding record_jit
recorded-pending no_fault id file b h = pending_jit-record_jit id file b
recorded-pending no_dir id file b h = absurd (false≢true h)
recorded-pending no_open id file b h = absurd (false≢true h)
recorded-pending unsynced id file b h = absurd (false≢true h)
recorded-pending (cut_short n) id file b h = absurd (false≢true h)

after_record-IsProper :
    (w : Site) (org slot : Text) (req : JitRequest) (jit : JitConfig) (l : Lane)
    (o : Option Text × Bool)
    → (o.1 ≡ true → pending_jit o.0 ≡ pos jit.runner_id)
    → IsProper l.log
    → IsProper (after_record w org slot req.name jit (note (minted req jit.runner_id) l) o).1.log
unfolding run_minted settle
after_record-IsProper w org slot req jit l (file, true) kept h =
    let l' : Lane = run_captured w org slot req.name jit (
      note (recorded jit.runner_id)
        (record l { now = suc l.now; jit_file = file; log = minted req jit.runner_id ∷ l.log })) in
    let k : Look = w.look l'.now jit.runner_id in
    settled-IsProper w jit.runner_id
      (job_error (job_result w org slot (suc (suc l.now)) jit.encoded))
      (note (looked jit.runner_id k) l') k ((refl, refl), kept refl, h)
after_record-IsProper w org slot req jit l (file, false) kept h = h

mint_and_run-IsProper :
    (w : Site) (org slot : Text) (l : Lane) (p : Option EphemeralParams)
    → MintsIds w
    → IsProper l.log
    → IsProper (mint_and_run w org slot l p).1.log
unfolding mint_and_run
mint_and_run-IsProper w org slot l none ids h = h
mint_and_run-IsProper w org slot l (some p) ids h =
    let req : JitRequest = mint_request w org slot l.now p in
    after_mint-IsProper req (w.mint l.now req) refl
  where
    after_mint-IsProper :
        (req : JitRequest) (m : Option JitConfig)
        → w.mint l.now req ≡ m
        → IsProper (after_mint w org slot req l m).1.log
    after_mint-IsProper req none e = h
    after_mint-IsProper req (some jit) e =
        let fault : WriteFault = w.write_fault (suc l.now) in
        after_record-IsProper w org slot req jit l (record_jit fault jit.runner_id l.jit_file)
          (recorded-pending fault jit.runner_id l.jit_file (ids l.now req jit e)) h

reap_ghost-IsProper : (w : Site) (l : Lane) → IsProper l.log → IsProper (reap_ghost w l).log
unfolding reap_ghost clear_jit
reap_ghost-IsProper w l h =
    elim (Bool-cases
      (eqb_ℤ (pending_jit (if w.is_readable l.now then l.jit_file else none)) (pos 0))) [
        | inl e ↦ rw e h
        | inr e ↦ rw e h
      ]

-- If the ids that GitHub mints fit an int64, a cycle runs a job only on the registration that it has minted
-- and recorded right before, and while the job runs the jit-id file gives that registration's id.
pub run_cycle-IsProper :
    (w : Site) (name slot : Text) (l : Lane)
    → MintsIds w
    → IsProper l.log
    → IsProper (run_cycle w name slot l).1.log
unfolding run_cycle cycle_with_client
run_cycle-IsProper w name slot l ids h = elim (Bool-cases (require_org w.cfg name)) [
  | inr e ↦ rw e h
  | inl e ↦ elim (Bool-cases (w.has_client l.now)) [
    | inr f ↦ rw e (rw f h)
    | inl f ↦ rw e (
        rw f (mint_and_run-IsProper w name slot (reap_ghost w l) _ ids (reap_ghost-IsProper w l h)))
  ]
]
