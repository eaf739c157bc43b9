-- ===== src/Service/Cycle/Ghosts.antt =====
-- What a cycle does about the registration that an earlier one left behind.
use srm.Prelude.{
  ℕ, suc, ◌≡◌, refl, ◌⊎◌, inl, inr, Bool, true, false, Option, none, some, List, [], ◌∷◌, Text,
}
use srm.Prelude.Int.{ℤ, pos, eqb_ℤ}
use srm.Service.Reconcile.Model.{Error, Reply, deleted, gone, refused}
use srm.Service.Cycle.{
  Event, minted, asked_delete, looked, recorded, Look, found, missing, unclear, CycleError, Site,
  Lane, finish, ask_delete, clear_jit, drop_registration, settle, settled, dropped, run_minted,
  mint_and_run, reap_ghost, cycle_with_client, run_cycle, JitConfig, EphemeralParams, after_mint,
  after_record, note, require_org, JitRequest, or_registered, mint_request, run_captured, job_error,
  job_result, paused,
}
use srm.Service.JitFile.{record_jit, pending_jit}
use srm.Service.Cycle.Tracked.{outstanding}

-- What is true of a log and of each longer one, is true after the rest of a cycle.
module _ (P : List Event → Type 0)
    (longer : (e : Event) (log : List Event) → P log → P (e ∷ log)) where
  finish-keeps : (e : Option CycleError) (l : Lane) → P l.log → P (finish e l).1.log
  finish-keeps none l h = h
  finish-keeps (some e) l h = longer paused l.log h

  dropped-keeps : (w : Site) (l : Lane) (r : Reply) → P l.log → P (dropped w l r).log
  unfolding dropped clear_jit
  dropped-keeps w l deleted h = h
  dropped-keeps w l gone h = h
  dropped-keeps w l (refused e) h = h

  settled-keeps :
      (w : Site) (id : ℕ) (e : Option CycleError) (l : Lane) (k : Look)
      → P l.log
      → P (settled w id e l k).1.log
  unfolding settled clear_jit drop_registration
  settled-keeps w id e l missing h = finish-keeps e (clear_jit w l) h
  settled-keeps w id e l found h =
      let r : Reply = w.delete_reply l.now (pos id) in
      let l' : Lane = ask_delete w (pos id) l in
      finish-keeps (or_registered e) (dropped w l' r)
        (dropped-keeps w l' r (longer (asked_delete (pos id) r) l.log h))
  settled-keeps w id e l unclear h = finish-keeps e l h

  run_minted-keeps :
      (w : Site) (org slot name : Text) (jit : JitConfig) (l : Lane)
      → P l.log
      → P (run_minted w org slot name jit l).1.log
  unfolding run_minted settle
  run_minted-keeps w org slot name jit l h =
      let l' : Lane = run_captured w org slot name jit l in
      let k : Look = w.look l'.now jit.runner_id in
      settled-keeps w jit.runner_id (job_error (job_result w org slot l.now jit.encoded))
        (note (looked jit.runner_id k) l') k (longer _ _ (longer _ _ (longer _ _ h)))

  after_record-keeps :
      (w : Site) (org slot name : Text) (jit : JitConfig) (l : Lane) (o : Option Text × Bool)
      → P l.log
      → P (after_record w org slot name jit l o).1.log
  after_record-keeps w org slot name jit l (file, true) h =
      run_minted-keeps w org slot name jit
        (note (recorded jit.runner_id) (record l { jit_file = file })) (longer _ _ h)
  after_record-keeps w org slot name jit l (file, false) h = longer _ _ (longer _ _ h)

  after_mint-keeps :
      (w : Site) (org slot : Text) (req : JitRequest) (l : Lane) (m : Option JitConfig)
      → P l.log
      → P (after_mint w org slot req l m).1.log
  after_mint-keeps w org slot req l none h = longer _ _ h
  after_mint-keeps w org slot req l (some jit) h =
      after_record-keeps w org slot req.name jit (note (minted req jit.runner_id) l)
        (record_jit (w.write_fault (suc l.now)) jit.runner_id l.jit_file) (longer _ _ h)

  mint_and_run-keeps :
      (w : Site) (org slot : Text) (l : Lane) (p : Option EphemeralParams)
      → P l.log
      → P (mint_and_run w org slot l p).1.log
  unfolding mint_and_run
  mint_and_run-keeps w org slot l none h = longer _ _ h
  mint_and_run-keeps w org slot l (some p) h =
      let req : JitRequest = mint_request w org slot l.now p in
      after_mint-keeps w org slot req l (w.mint l.now req) h

-- The log, at some earlier moment, was `s`.
abbrev pub WasOnce : List Event → List Event → Type 0
WasOnce s [] = s ≡ []
WasOnce s (e ∷ log) = (s ≡ e ∷ log) ⊎ WasOnce s log

WasOnce-now : (s : List Event) → WasOnce s s
WasOnce-now [] = refl
WasOnce-now (e ∷ s) = inl refl

-- The next cycle asks for the deletion of a registration that the jit-id file holds, before it does
-- anything else, if the org is configured, a client can be made and the file can be read.
pub run_cycle_reaps :
    (w : Site) (name slot : Text) (l : Lane)
    → require_org w.cfg name ≡ true
    → w.has_client l.now ≡ true
    → w.is_readable l.now ≡ true
    → eqb_ℤ (pending_jit l.jit_file) (pos 0) ≡ false
    → WasOnce
        (asked_delete (pending_jit l.jit_file) (w.delete_reply l.now (pending_jit l.jit_file))
          ∷ l.log)
        (run_cycle w name slot l).1.log
unfolding run_cycle cycle_with_client reap_ghost clear_jit
run_cycle_reaps w name slot l o c r n =
    let id : ℤ = pending_jit l.jit_file in
    rw o (
      rw c (
        rw r (
          rw n (
            mint_and_run-keeps (WasOnce (asked_delete id (w.delete_reply l.now id) ∷ l.log))
              (λ e log h. inr h) w name slot (clear_jit w (ask_delete w id l)) _ (inl refl)))))

mint_and_run_unminted :
    (w : Site) (org slot : Text) (l : Lane) (p : Option EphemeralParams)
    → ((t : ℕ) (req : JitRequest) → w.mint t req ≡ none)
    → ((mint_and_run w org slot l p).1.jit_file ≡ l.jit_file)
      × (outstanding (mint_and_run w org slot l p).1.log ≡ outstanding l.log)
unfolding mint_and_run
mint_and_run_unminted w org slot l none f = (refl, refl)
mint_and_run_unminted w org slot l (some p) f =
    rw (f l.now (mint_request w org slot l.now p)) (refl, refl)

-- If GitHub refuses to delete the registration that the jit-id file holds, and the cycle then cannot mint
-- another, the file is removed all the same where it can be: what was outstanding still is, and its id is
-- on record no more.
pub run_cycle_forgets :
    (w : Site) (name slot : Text) (l : Lane) (e : Error)
    → require_org w.cfg name ≡ true
    → w.has_client l.now ≡ true
    → w.is_readable l.now ≡ true
    → eqb_ℤ (pending_jit l.jit_file) (pos 0) ≡ false
    → w.delete_reply l.now (pending_jit l.jit_file) ≡ refused e
    → w.is_removable (suc l.now) ≡ true
    → ((t : ℕ) (req : JitRequest) → w.mint t req ≡ none)
    → ((run_cycle w name slot l).1.jit_file ≡ none)
      × (outstanding (run_cycle w name slot l).1.log ≡ outstanding l.log)
unfolding run_cycle cycle_with_client reap_ghost clear_jit
run_cycle_forgets w name slot l e o c r n d m f =
    rw o (rw c (rw r (rw n (rw d (rw m (mint_and_run_unminted w name slot _ _ f))))))
