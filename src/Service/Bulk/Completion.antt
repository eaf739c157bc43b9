-- ===== src/Service/Bulk/Completion.antt =====
-- That BulkDelete returns: its goroutines can end, whatever they have done so far.
use srm.Prelude.{
  ℕ, zero, suc, ◌+◌, ◌≤◌, ◌<◌, ◌≡◌, ◌≢◌, refl, inl, inr, Bool, true, false, ◌&&◌, ◌*◌, List, [],
  ◌∷◌, ◌++◌, length, ltb, arith, Text, Bool-cases, if_both,
}
use srm.Prelude.Int.{ℤ, pos}
use srm.Service.Cycle.{require_org}
use srm.Service.Bulk.Moves.{run-keeps}
use srm.Service.Bulk.{
  Setup, Stage, waiting, started, answered, written, counted, ended, Job, Shared, Pool, advance,
  move, total_of, is_spawned, is_running, is_ended, one_if, running, step, run, start, AreEnded,
  bulk_delete,
}

-- The steps that are left
abbrev steps : Stage → ℕ
steps waiting = 5
steps started = 4
steps (answered e) = 3
steps (written e) = 2
steps (counted e d) = 1
steps (ended e) = 0

abbrev steps_of : Job → ℕ
steps_of j = steps j.stage

abbrev work : List Job → ℕ
work = total_of steps_of

-- A step that shortens the work
abbrev IsStep : Setup → ℕ → Bool → List Job → Shared → ℕ → Type 0
IsStep u total free jobs s i = work (move u total free jobs i s).0 < work jobs

-- The receiver of the progress channel takes each event.
abbrev pub AreReceived : Setup → Type 0
AreReceived u = (d : ℕ) → u.receives d ≡ true

module _ (u : Setup) (total : ℕ) (receives : AreReceived u) where
  advance-steps :
      (id : ℕ) (free : Bool) (stage : Stage) (s : Shared)
      → is_running stage ≡ true
      → steps (advance u total id free stage s).0 < steps stage
  unfolding advance
  advance-steps id free waiting s h = absurd (cc h)
  advance-steps id free started s h =
      if_both (λ (o : Stage × Shared). steps o.0 < 4) u.cfg.dry_run (omega arith) (omega arith)
  advance-steps id free (answered e) s h = omega arith
  advance-steps id free (written e) s h =
      if_both (λ (o : Stage × Shared). steps o.0 < 2) u.has_progress (omega arith) (omega arith)
  advance-steps id free (counted e d) s h = rw (receives d) (omega arith)
  advance-steps id free (ended e) s h = absurd (cc h)

  -- A goroutine that runs can take a step.
  running-IsStep :
      (free : Bool) (jobs : List Job) (s : Shared)
      → 0 < running jobs
      → (i : ℕ) × IsStep u total free jobs s i
  unfolding move total_of
  running-IsStep free [] s h = absurd (omega (arith, h))
  running-IsStep free (j ∷ jobs) s h = elim (Bool-cases (is_running j.stage)) [
    | inl e ↦ (0, omega (arith, advance-steps j.id free j.stage s e))
    | inr e ↦
        let (i, k) = running-IsStep (free && is_spawned j.stage) jobs s (rest (rw e at h)) in
        (suc i, omega (arith, k))
  ]
    where
      rest : 0 < one_if false + running jobs → 0 < running jobs
      rest p = omega (arith, p)

  head-IsStep :
      (j : Job) (jobs : List Job) (s : Shared) (stage : Stage)
      → j.stage ≡ stage
      → (running jobs ≡ 0 → 0 < work jobs → (i : ℕ) × IsStep u total true jobs s i)
      → one_if (is_running stage) + running jobs ≡ 0
      → 0 < steps stage + work jobs
      → (i : ℕ) × IsStep u total true (j ∷ jobs) s i
  unfolding move advance total_of
  head-IsStep j jobs s waiting e ih r h = (0, simp e (omega arith))
  head-IsStep j jobs s (ended x) e ih r h =
      let (i, k) = ih (omega (arith, r)) (omega (arith, h)) in (suc i, simp e (omega (arith, k)))
  head-IsStep j jobs s started e ih r h = absurd (omega (arith, r))
  head-IsStep j jobs s (answered x) e ih r h = absurd (omega (arith, r))
  head-IsStep j jobs s (written x) e ih r h = absurd (omega (arith, r))
  head-IsStep j jobs s (counted x d) e ih r h = absurd (omega (arith, r))

  -- Where none runs and there is a slot, the first that waits can be started.
  waiting-IsStep :
      (jobs : List Job) (s : Shared)
      → running jobs ≡ 0
      → 0 < work jobs
      → (i : ℕ) × IsStep u total true jobs s i
  unfolding total_of
  waiting-IsStep [] s r h = absurd (omega (arith, h))
  waiting-IsStep (j ∷ jobs) s r h = head-IsStep j jobs s j.stage refl (waiting-IsStep jobs s) r h

-- SetLimit: under a limit other than 0, one goroutine may run.
abbrev pub IsOpen : Setup → Type 0
IsOpen u = (limit : ℤ) → limit ≢ pos 0 → u.admits limit 0 ≡ true

pool-step :
    (u : Setup) (p : Pool)
    → AreReceived u
    → IsOpen u
    → u.cfg.concurrency ≢ pos 0
    → 0 < work p.jobs
    → (i : ℕ) × (work (step u i p).jobs < work p.jobs)
unfolding step
pool-step u p receives open_for c h = elim (Bool-cases (ltb 0 (running p.jobs))) [
  | inl r ↦
      running-IsStep u (length p.jobs) receives (u.admits u.cfg.concurrency (running p.jobs)) p.jobs
        p.shared (ground (arith, r))
  | inr r ↦
      let z : running p.jobs ≡ 0 = ground (arith, r) in
      simp (z, open_for u.cfg.concurrency c)
        (waiting-IsStep u (length p.jobs) receives p.jobs p.shared z h)
]

work_zero : (jobs : List Job) → work jobs ≡ 0 → AreEnded jobs
unfolding total_of
work_zero [] h = tt
work_zero (j ∷ jobs) h = (stage_zero j.stage (omega (arith, h)), work_zero jobs (omega (arith, h)))
  where
    stage_zero : (stage : Stage) → steps stage ≡ 0 → is_ended stage ≡ true
    stage_zero (ended e) q = refl
    stage_zero waiting q = absurd (omega (arith, q))
    stage_zero started q = absurd (omega (arith, q))
    stage_zero (answered e) q = absurd (omega (arith, q))
    stage_zero (written e) q = absurd (omega (arith, q))
    stage_zero (counted e d) q = absurd (omega (arith, q))

-- A run of at most `n` steps ends all.
abbrev pub CanEnd : Setup → Pool → ℕ → Type 0
CanEnd u p n = (rest : List ℕ) × (length rest ≤ n) × AreEnded (run u rest p).jobs

ends :
    (u : Setup) (n : ℕ) (p : Pool)
    → AreReceived u
    → IsOpen u
    → u.cfg.concurrency ≢ pos 0
    → work p.jobs ≤ n
    → CanEnd u p n
unfolding run
ends u zero p r o c h = ([], omega arith, work_zero p.jobs (omega (arith, h)))
ends u (suc n) p r o c h = elim (Bool-cases (ltb 0 (work p.jobs))) [
  | inr e ↦ ([], omega arith, work_zero p.jobs (ground (arith, e)))
  | inl e ↦
      let (i, k) = pool-step u p r o c (ground (arith, e)) in
      let (rest, l, a) = ends u n (step u i p) r o c (omega (arith, k, h)) in
      (i ∷ rest, omega (arith, l), a)
]

work-start : (ids : List ℕ) → work (start ids).jobs ≡ 5 * length ids
unfolding start total_of
work-start [] = refl
work-start (id ∷ ids) = omega (arith, work-start ids)

advance-work :
    (u : Setup) (total id : ℕ) (free : Bool) (stage : Stage) (s : Shared)
    → steps (advance u total id free stage s).0 ≤ steps stage
unfolding advance
advance-work u total id free waiting s = if_both (λ k. steps k ≤ 5) free (omega arith) (omega arith)
advance-work u total id free started s =
    if_both (λ (o : Stage × Shared). steps o.0 ≤ 4) u.cfg.dry_run (omega arith) (omega arith)
advance-work u total id free (answered e) s = omega arith
advance-work u total id free (written e) s =
    if_both (λ (o : Stage × Shared). steps o.0 ≤ 2) u.has_progress (omega arith) (omega arith)
advance-work u total id free (counted e d) s =
    if_both (λ (o : Stage × Shared). steps o.0 ≤ 1) (u.receives d) (omega arith) (omega arith)
advance-work u total id free (ended e) s = omega arith

work-move :
    (u : Setup) (total : ℕ) (free : Bool) (jobs : List Job) (i : ℕ) (s : Shared)
    → work (move u total free jobs i s).0 ≤ work jobs
unfolding move total_of
work-move u total free [] i s = omega arith
work-move u total free (j ∷ jobs) zero s = omega (arith, advance-work u total j.id free j.stage s)
work-move u total free (j ∷ jobs) (suc i) s =
    omega (arith, work-move u total (free && is_spawned j.stage) jobs i s)

work-run :
    (u : Setup) (n : ℕ) (order : List ℕ) (p : Pool)
    → work p.jobs ≤ n
    → work (run u order p).jobs ≤ n
unfolding step
work-run u n =
    run-keeps u (λ p. work p.jobs ≤ n)
      (λ i p h. omega (
        arith,
        h,
        work-move u (length p.jobs) (u.admits u.cfg.concurrency (running p.jobs)) p.jobs i p.shared,
      ))

run-append :
    (u : Setup) (order rest : List ℕ) (p : Pool)
    → run u (order ++ rest) p ≡ run u rest (run u order p)
unfolding run
run-append u [] rest p = refl
run-append u (i ∷ order) rest p = run-append u order rest (step u i p)

-- If each call of DeleteRunner returns and each event sent on the progress channel is received, the limit
-- of the group is not 0 and errgroup starts one goroutine under any other: whatever steps the goroutines of
-- BulkDelete have taken, there is an order in which all end within five more steps for each id.
pub bulk_delete_completes :
    (u : Setup) (org : Text) (ids order : List ℕ)
    → require_org u.cfg org ≡ true
    → u.has_client ≡ true
    → AreReceived u
    → IsOpen u
    → u.cfg.concurrency ≢ pos 0
    → (rest : List ℕ) × (length rest ≤ 5 * length ids)
      × AreEnded (bulk_delete u org ids (order ++ rest)).1.jobs
unfolding bulk_delete
bulk_delete_completes u org ids order o k receives open_for c =
    let n : ℕ = 5 * length ids in
    let (rest, l, a) =
      ends u n (run u order (start ids)) receives open_for c
        (work-run u n order (start ids) (omega (arith, work-start ids))) in
    (rest, l, simp (o, k, run-append u order rest (start ids)) a)
