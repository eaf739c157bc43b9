-- ===== src/Service/Cycle/Pace.antt =====
-- How often a cycle waits (backoffSleep).
use srm.Prelude.{
  ℕ, suc, ◌≡◌, refl, Bool, true, false, Option, none, some, List, [], ◌∷◌, arith, Bool-cases, inl,
  inr, Text,
}
use srm.Prelude.Int.{pos}
use srm.Service.Reconcile.Model.{Reply, deleted, gone, refused}
use srm.Service.Cycle.{
  Event, minted, asked_delete, looked, recorded, ran, captured, paused, Look, found, missing,
  unclear, CycleError, Site, Lane, finish, ask_delete, clear_jit, drop_registration, settle,
  settled, dropped, run_minted, mint_and_run, reap_ghost, cycle_with_client, run_cycle, JitConfig,
  EphemeralParams, after_mint, after_record, note, require_org, JitRequest,
}

abbrev pub pauses : List Event → ℕ
pauses [] = 0
pauses (paused ∷ log) = suc (pauses log)
pauses (minted _ _ ∷ log) = pauses log
pauses (asked_delete _ _ ∷ log) = pauses log
pauses (looked _ _ ∷ log) = pauses log
pauses (recorded _ ∷ log) = pauses log
pauses (ran _ _ ∷ log) = pauses log
pauses (captured _ ∷ log) = pauses log

-- It has waited once if it returns an error, and not at all if not.
abbrev pub IsPaced : Lane → Option CycleError × Lane → Type 0
IsPaced l (none, l') = pauses l'.log ≡ pauses l.log
IsPaced l (some e, l') = pauses l'.log ≡ suc (pauses l.log)

finish-IsPaced :
    (l l' : Lane) (e : Option CycleError) → pauses l'.log ≡ pauses l.log → IsPaced l (finish e l')
finish-IsPaced l l' none h = h
finish-IsPaced l l' (some e) h = omega (arith, h)

pauses-dropped : (w : Site) (l : Lane) (r : Reply) → pauses (dropped w l r).log ≡ pauses l.log
unfolding dropped
pauses-dropped w l deleted = refl
pauses-dropped w l gone = refl
pauses-dropped w l (refused e) = refl

settled-IsPaced :
    (w : Site) (id : ℕ) (e : Option CycleError) (l l' : Lane) (k : Look)
    → pauses l'.log ≡ pauses l.log
    → IsPaced l (settled w id e l' k)
unfolding settled clear_jit drop_registration
settled-IsPaced w id e l l' missing h = finish-IsPaced l _ e h
settled-IsPaced w id none l l' found h =
    ground (arith, pauses-dropped w (ask_delete w (pos id) l') (w.delete_reply l'.now (pos id)))
settled-IsPaced w id (some e) l l' found h =
    ground (arith, pauses-dropped w (ask_delete w (pos id) l') (w.delete_reply l'.now (pos id)))
settled-IsPaced w id e l l' unclear h = finish-IsPaced l _ e h

run_minted-IsPaced :
    (w : Site) (org slot name : Text) (jit : JitConfig) (l l' : Lane)
    → pauses l'.log ≡ pauses l.log
    → IsPaced l (run_minted w org slot name jit l')
unfolding run_minted settle
run_minted-IsPaced w org slot name jit l l' h = settled-IsPaced w jit.runner_id _ l _ _ h

after_record-IsPaced :
    (w : Site) (org slot name : Text) (jit : JitConfig) (l l' : Lane) (o : Option Text × Bool)
    → pauses l'.log ≡ pauses l.log
    → IsPaced l (after_record w org slot name jit l' o)
after_record-IsPaced w org slot name jit l l' (file, true) h =
    run_minted-IsPaced w org slot name jit l _ h
after_record-IsPaced w org slot name jit l l' (file, false) h = omega (arith, h)

after_mint-IsPaced :
    (w : Site) (org slot : Text) (req : JitRequest) (l l' : Lane) (m : Option JitConfig)
    → pauses l'.log ≡ pauses l.log
    → IsPaced l (after_mint w org slot req l' m)
after_mint-IsPaced w org slot req l l' none h = omega (arith, h)
after_mint-IsPaced w org slot req l l' (some jit) h =
    after_record-IsPaced w org slot req.name jit l (note (minted req jit.runner_id) l') _ h

mint_and_run-IsPaced :
    (w : Site) (org slot : Text) (l l' : Lane) (p : Option EphemeralParams)
    → pauses l'.log ≡ pauses l.log
    → IsPaced l (mint_and_run w org slot l' p)
unfolding mint_and_run
mint_and_run-IsPaced w org slot l l' none h = omega (arith, h)
mint_and_run-IsPaced w org slot l l' (some p) h = after_mint-IsPaced w org slot _ l l' _ h

pauses-reap_ghost : (w : Site) (l : Lane) → pauses (reap_ghost w l).log ≡ pauses l.log
unfolding reap_ghost clear_jit
pauses-reap_ghost w l = ground arith

-- A cycle that returns an error has waited exactly once, whichever step failed, and one that returns none
-- has not waited.
pub run_cycle-IsPaced :
    (w : Site) (name slot : Text) (l : Lane) → IsPaced l (run_cycle w name slot l)
unfolding run_cycle cycle_with_client
run_cycle-IsPaced w name slot l = elim (Bool-cases (require_org w.cfg name)) [
  | inr e ↦ rw e refl
  | inl e ↦ elim (Bool-cases (w.has_client l.now)) [
    | inr f ↦ rw e (rw f refl)
    | inl f ↦
        rw e (rw f (mint_and_run-IsPaced w name slot l (reap_ghost w l) _ (pauses-reap_ghost w l)))
  ]
]
