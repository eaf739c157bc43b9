-- ===== src/Service/Cycle/Tracked.antt =====
-- Which registrations of a lane are outstanding: minted, and not known to be gone.
use Prim.Native.Nat.{◌^◌}
use srm.Prelude.{
  ℕ, suc, ◌<◌, ◌≡◌, refl, ap, ◌∙◌, ◌⊎◌, inl, inr, true, false, not, Option, none, some, List, [],
  ◌∷◌, keep, All, arith, Bool-cases, Text, if◌then◌else◌,
}
use srm.Prelude.Int.{ℤ, pos, eqb_ℤ}
use srm.Prelude.Decimal.{decimal}
use srm.Service.Reconcile.Model.{Reply, deleted, gone, refused}
use srm.Service.JitFile.RoundTrip.{pending_jit-record_jit}
use srm.Service.Cycle.{
  Event, minted, asked_delete, looked, recorded, ran, captured, paused, Look, found, missing,
  unclear, CycleError, Site, Lane, finish, ask_delete, clear_jit, drop_registration, settle,
  settled, dropped, run_minted, mint_and_run, reap_ghost, cycle_with_client, run_cycle, run_cycles,
  JitConfig, EphemeralParams, after_mint, note, require_org, JitRequest, job_error, job_result,
  run_captured, or_registered,
}
use srm.Service.JitFile.{record_jit, no_fault, pending_jit}

abbrev without : ℤ → List ℤ → List ℤ
without id = keep (λ x. not (eqb_ℤ x id))

abbrev after_reply : ℤ → Reply → List ℤ → List ℤ
after_reply id deleted xs = without id xs
after_reply id gone xs = without id xs
after_reply id (refused e) xs = xs

abbrev after_look : ℕ → Look → List ℤ → List ℤ
after_look id missing xs = without (pos id) xs
after_look id found xs = xs
after_look id unclear xs = xs

-- The ids that were minted and not deleted or found missing since
abbrev pub outstanding : List Event → List ℤ
outstanding [] = []
outstanding (minted req id ∷ log) = pos id ∷ outstanding log
outstanding (asked_delete id r ∷ log) = after_reply id r (outstanding log)
outstanding (looked id k ∷ log) = after_look id k (outstanding log)
outstanding (recorded _ ∷ log) = outstanding log
outstanding (ran _ _ ∷ log) = outstanding log
outstanding (captured _ ∷ log) = outstanding log
outstanding (paused ∷ log) = outstanding log

-- No registration is outstanding, or the one that the jit-id file holds.
abbrev pub IsTracked : Lane → Type 0
IsTracked l =
    (outstanding l.log ≡ [])
    ⊎ ((outstanding l.log ≡ pending_jit l.jit_file ∷ [])
        × (eqb_ℤ (pending_jit l.jit_file) (pos 0) ≡ false))

abbrev IsDone : Reply → Type 0
IsDone deleted = Unit {0}
IsDone gone = Unit {0}
IsDone (refused e) = ⊥

abbrev IsId : Option JitConfig → Type 0
IsId none = Unit {0}
IsId (some jit) = (0 < jit.runner_id) × (jit.runner_id < 2 ^ 63)

-- Deletions are not refused, the jit-id file is read and written without a fault, and minted ids are
-- positive int64 numbers.
pub record IsCalm (w : Site) : Type 0 where
  pub is_answered : (t : ℕ) (id : ℤ) → IsDone (w.delete_reply t id)
  pub is_written : (t : ℕ) → w.write_fault t ≡ no_fault
  pub is_read : (t : ℕ) → w.is_readable t ≡ true
  pub is_id : (t : ℕ) (req : JitRequest) → IsId (w.mint t req)

eqb_ℤ_refl : (n : ℤ) → eqb_ℤ n n ≡ true
eqb_ℤ_refl n = ground arith

without_self : (id : ℤ) → without id (id ∷ []) ≡ []
unfolding keep
without_self id = rw (eqb_ℤ_refl id) refl

after_reply_self : (id : ℤ) (r : Reply) → IsDone r → after_reply id r (id ∷ []) ≡ []
after_reply_self id deleted d = without_self id
after_reply_self id gone d = without_self id
after_reply_self id (refused e) d = elim d [ ]

after_reply-nil : (id : ℤ) (r : Reply) → after_reply id r [] ≡ []
unfolding keep
after_reply-nil id deleted = refl
after_reply-nil id gone = refl
after_reply-nil id (refused e) = refl

-- The reap leaves nothing outstanding.
outstanding-reap_ghost :
    (w : Site) (l : Lane) → IsCalm w → IsTracked l → outstanding (reap_ghost w l).log ≡ []
unfolding reap_ghost clear_jit
outstanding-reap_ghost w l c (inl h) =
    elim (Bool-cases
      (eqb_ℤ (pending_jit (if w.is_readable l.now then l.jit_file else none)) (pos 0))) [
        | inl e ↦ rw e h
        | inr e ↦ rw e (ap (after_reply _ _) h ∙ after_reply-nil _ _)
      ]
outstanding-reap_ghost w l c (inr (h, n)) =
    rw (c.is_read l.now)
      (rw n (ap (after_reply _ _) h ∙ after_reply_self _ _ (c.is_answered l.now _)))

outstanding-finish :
    (e : Option CycleError) (l : Lane) → outstanding (finish e l).1.log ≡ outstanding l.log
outstanding-finish none l = refl
outstanding-finish (some e) l = refl

jit_file-finish : (e : Option CycleError) (l : Lane) → (finish e l).1.jit_file ≡ l.jit_file
jit_file-finish none l = refl
jit_file-finish (some e) l = refl

finish-IsTracked : (e : Option CycleError) (l : Lane) → IsTracked l → IsTracked (finish e l).1
finish-IsTracked none l t = t
finish-IsTracked (some e) l t = t

-- The one outstanding registration is that of `id`, which the file holds.
record Holds (l : Lane) (id : ℕ) : Type 0 where
  is_held : outstanding l.log ≡ pos id ∷ []
  is_pending : pending_jit l.jit_file ≡ pos id
  is_id : 0 < id

Holds-IsTracked : (l : Lane) (id : ℕ) → Holds l id → IsTracked l
Holds-IsTracked l id h =
    inr (rw h.is_pending (h.is_held), rw h.is_pending (ground (arith, h.is_id)))

outstanding-dropped :
    (w : Site) (l : Lane) (r : Reply) → outstanding (dropped w l r).log ≡ outstanding l.log
unfolding dropped clear_jit
outstanding-dropped w l deleted = refl
outstanding-dropped w l gone = refl
outstanding-dropped w l (refused e) = refl

settled-IsTracked :
    (w : Site) (id : ℕ) (e : Option CycleError) (l : Lane) (k : Look)
    → IsCalm w
    → Holds l id
    → IsTracked (settled w id e (note (looked id k) l) k).1
unfolding settled clear_jit drop_registration
settled-IsTracked w id e l missing c h =
    finish-IsTracked e (clear_jit w (note (looked id missing) l))
      (inl (ap (without (pos id)) h.is_held ∙ without_self (pos id)))
settled-IsTracked w id e l found c h =
    let l' : Lane = note (looked id found) l in
    let r : Reply = w.delete_reply l'.now (pos id) in
    finish-IsTracked (or_registered e) (dropped w (ask_delete w (pos id) l') r) (
      inl (
        outstanding-dropped w (ask_delete w (pos id) l') r
        ∙ (ap (after_reply (pos id) r) h.is_held
            ∙ after_reply_self (pos id) r (c.is_answered l'.now (pos id)))))
settled-IsTracked w id e l unclear c h =
    finish-IsTracked e (note (looked id unclear) l) (Holds-IsTracked l id h)

after_mint-IsTracked :
    (w : Site) (org slot : Text) (req : JitRequest) (l : Lane) (m : Option JitConfig)
    → IsCalm w
    → IsId m
    → outstanding l.log ≡ []
    → IsTracked (after_mint w org slot req l m).1
unfolding run_minted settle record_jit
after_mint-IsTracked w org slot req l none c i h = inl h
after_mint-IsTracked w org slot req l (some jit) c i h =
    let l' : Lane = note (minted req jit.runner_id) l in
    rw (c.is_written (suc l.now)) (
      settled-IsTracked w jit.runner_id (job_error (job_result w org slot (suc l'.now) jit.encoded))
        (run_captured w org slot req.name jit
          (note (recorded jit.runner_id) (record l' { jit_file = some (decimal jit.runner_id) })))
        (w.look (suc (suc (suc l'.now))) jit.runner_id) c
        (record {
          is_held = ap (◌∷◌ (pos jit.runner_id)) h;
          is_pending = pending_jit-record_jit jit.runner_id l.jit_file i.1;
          is_id = i.0;
        }))

mint_and_run-IsTracked :
    (w : Site) (org slot : Text) (l : Lane) (p : Option EphemeralParams)
    → IsCalm w
    → outstanding l.log ≡ []
    → IsTracked (mint_and_run w org slot l p).1
unfolding mint_and_run
mint_and_run-IsTracked w org slot l none c h = inl h
mint_and_run-IsTracked w org slot l (some p) c h =
    after_mint-IsTracked w org slot _ l _ c (c.is_id l.now _) h

cycle-IsTracked :
    (w : Site) (org slot : Text) (l : Lane)
    → IsCalm w
    → IsTracked l
    → IsTracked (cycle_with_client w org slot l).1
unfolding cycle_with_client
cycle-IsTracked w org slot l c t =
    let l' = reap_ghost w l in
    mint_and_run-IsTracked w org slot l' (w.mint_params l'.now) c (outstanding-reap_ghost w l c t)

run_cycle-IsTracked :
    (w : Site) (name slot : Text) (l : Lane)
    → IsCalm w
    → IsTracked l
    → IsTracked (run_cycle w name slot l).1
unfolding run_cycle
run_cycle-IsTracked w name slot l c t = elim (Bool-cases (require_org w.cfg name)) [
  | inr e ↦ rw e t
  | inl e ↦ elim (Bool-cases (w.has_client l.now)) [
    | inr f ↦ rw e (rw f t)
    | inl f ↦ rw e (rw f (cycle-IsTracked w name slot l c t))
  ]
]

-- A lane never loses track of a registration: however many cycles run, and whether their jobs fail, cannot
-- be minted or cannot be looked at again, at most one registration is outstanding, and the jit-id file
-- holds its id for the next cycle to reap. The conditions are that in each cycle GitHub refuses no
-- deletion, the jit-id file is read and written without a fault, and minted ids are positive int64 numbers.
pub run_cycles-IsTracked :
    (ws : List Site) (name slot : Text) (l : Lane)
    → All IsCalm ws
    → IsTracked l
    → IsTracked (run_cycles ws name slot l)
unfolding run_cycles
run_cycles-IsTracked [] name slot l c t = t
run_cycles-IsTracked (w ∷ ws) name slot l (c, cs) t =
    run_cycles-IsTracked ws name slot (run_cycle w name slot l).1 cs
      (run_cycle-IsTracked w name slot l c t)
