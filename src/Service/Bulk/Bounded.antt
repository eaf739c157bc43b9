-- ===== src/Service/Bulk/Bounded.antt =====
-- How many deletions are under way at once.
use srm.Prelude.{
  ℕ, zero, suc, ◌+◌, ◌≤◌, ◌<◌, ◌≡◌, refl, Bool, true, false, ◌&&◌, List, [], ◌∷◌, map, length,
  arith, Text, Bool-cases, inl, inr,
}
use srm.Prelude.Int.{pos}
use srm.Service.Cycle.{require_org}
use srm.Service.Bulk.{
  Setup, Stage, waiting, started, answered, written, counted, ended, Job, Shared, Pool, advance,
  move, total_of, is_spawned, is_running, one_if, running, step, new_job, start, bulk_delete,
}
use srm.Service.Bulk.Moves.{run-keeps}

module _ (u : Setup) (total : ℕ) where
  advance-running :
      (id : ℕ) (free : Bool) (stage : Stage) (s : Shared)
      → one_if (is_running (advance u total id free stage s).0)
        ≤ one_if (is_running stage) + one_if free
  unfolding advance
  advance-running id free waiting s = ground arith
  advance-running id free started s = ground arith
  advance-running id free (answered e) s = ground arith
  advance-running id free (written e) s = ground arith
  advance-running id free (counted e d) s = ground arith
  advance-running id free (ended e) s = ground arith

  one_if-and : (a b : Bool) → one_if (a && b) ≤ one_if a
  one_if-and a b = ground arith

  running-move :
      (free : Bool) (jobs : List Job) (i : ℕ) (s : Shared)
      → running (move u total free jobs i s).0 ≤ running jobs + one_if free
  unfolding move total_of
  running-move free [] i s = omega arith
  running-move free (j ∷ jobs) zero s = omega (arith, advance-running j.id free j.stage s)
  running-move free (j ∷ jobs) (suc i) s = omega (
    arith,
    running-move (free && is_spawned j.stage) jobs i s,
    one_if-and free (is_spawned j.stage),
  )

-- SetLimit: at most `n` goroutines run under the limit `n`.
abbrev pub IsLimited : Setup → Type 0
IsLimited u = (n r : ℕ) → u.admits (pos n) r ≡ true → r < n

running-step :
    (u : Setup) (n i : ℕ) (p : Pool)
    → IsLimited u
    → u.cfg.concurrency ≡ pos n
    → running p.jobs ≤ n
    → running (step u i p).jobs ≤ n
unfolding step
running-step u n i p limited e h =
    let free : Bool = u.admits u.cfg.concurrency (running p.jobs) in
    room free (running p.jobs) _ (λ f. limited n (running p.jobs) (rw (← e) f))
      (running-move u (length p.jobs) free p.jobs i p.shared) h
  where
    room : (b : Bool) (r r' : ℕ) → (b ≡ true → r < n) → r' ≤ r + one_if b → r ≤ n → r' ≤ n
    room true r r' f a h = omega (arith, f refl, a)
    room false r r' f a h = omega (arith, a, h)

running-start : (ids : List ℕ) → running (map new_job ids) ≡ 0
unfolding total_of
running-start [] = refl
running-start (id ∷ ids) = omega (arith, running-start ids)

-- At no moment, in whatever order the goroutines take their steps, are more deletions under way than the
-- configuration allows, if it sets a limit and errgroup keeps to it.
pub bulk_delete_bounded :
    (u : Setup) (org : Text) (ids order : List ℕ) (n : ℕ)
    → IsLimited u
    → u.cfg.concurrency ≡ pos n
    → running (bulk_delete u org ids order).1.jobs ≤ n
unfolding bulk_delete start
bulk_delete_bounded u org ids order n limited e =
    let none_runs : running (map new_job ids) ≤ n = omega (arith, running-start ids) in
    elim (Bool-cases (require_org u.cfg org)) [
      | inr f ↦ rw f none_runs
      | inl f ↦ elim (Bool-cases u.has_client) [
        | inr k ↦ rw f (rw k none_runs)
        | inl k ↦ rw f (
            rw k (
              run-keeps u (λ p. running p.jobs ≤ n) (λ i p. running-step u n i p limited e) order
                (start ids) none_runs))
      ]
    ]
