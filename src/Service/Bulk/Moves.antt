-- ===== src/Service/Bulk/Moves.antt =====
-- What a step of one goroutine does to all of them.
use srm.Prelude.{
  ℕ, zero, suc, ◌+◌, ◌≡◌, refl, ap, Bool, ◌&&◌, List, [], ◌∷◌, map, All, All-weaken, arith,
}
use srm.Service.Bulk.{
  Setup, Job, Shared, Pool, advance, set_stage, move, total_of, is_spawned, step, run,
}

module _ (u : Setup) (total : ℕ) where
  -- What the step of one goroutine keeps, a step of the pool keeps.
  pub move-total :
      (f : Job → ℕ) (g : Shared → ℕ)
      → ((free : Bool) (j : Job) (s : Shared)
          → f (set_stage j (advance u total j.id free j.stage s).0)
              + g (advance u total j.id free j.stage s).1
            ≡ f j + g s)
      → (free : Bool) (jobs : List Job) (i : ℕ) (s : Shared)
      → total_of f (move u total free jobs i s).0 + g (move u total free jobs i s).1
        ≡ total_of f jobs + g s
  unfolding move total_of
  move-total f g h free [] i s = refl
  move-total f g h free (j ∷ jobs) zero s = omega (arith, h free j s)
  move-total f g h free (j ∷ jobs) (suc i) s =
      omega (arith, move-total f g h (free && is_spawned j.stage) jobs i s)

  pub move-shared :
      (P : Shared → Type 0)
      → ((free : Bool) (j : Job) (s : Shared) → P s → P (advance u total j.id free j.stage s).1)
      → (free : Bool) (jobs : List Job) (i : ℕ) (s : Shared) → P s
      → P (move u total free jobs i s).1
  unfolding move
  move-shared P h free [] i s p = p
  move-shared P h free (j ∷ jobs) zero s p = h free j s p
  move-shared P h free (j ∷ jobs) (suc i) s p =
      move-shared P h (free && is_spawned j.stage) jobs i s p

  -- What holds of each goroutine, where the step of one keeps it for that one and for every other
  pub move-All :
      (P : Shared → Job → Type 0)
      → ((free : Bool) (j k : Job) (s : Shared)
          → P s k
          → P (advance u total j.id free j.stage s).1 k)
      → ((free : Bool) (j : Job) (s : Shared)
          → P s j
          → P
              (advance u total j.id free j.stage s).1
              (set_stage j (advance u total j.id free j.stage s).0))
      → (free : Bool) (jobs : List Job) (i : ℕ) (s : Shared) → All (P s) jobs
      → All (P (move u total free jobs i s).1) (move u total free jobs i s).0
  unfolding move
  move-All P others self free [] i s k = tt
  move-All P others self free (j ∷ jobs) zero s (p, k) =
      (self free j s p, All-weaken _ _ jobs (λ x q. others free j x s q) k)
  move-All P others self free (j ∷ jobs) (suc i) s (p, k) = (
    move-shared (λ s'. P s' j) (λ b x s' q. others b x j s' q) (free && is_spawned j.stage) jobs i s
        p,
    move-All P others self (free && is_spawned j.stage) jobs i s k,
  )

  pub map-move :
      (free : Bool) (jobs : List Job) (i : ℕ) (s : Shared)
      → map (λ (j : Job). j.id) (move u total free jobs i s).0 ≡ map (λ (j : Job). j.id) jobs
  unfolding move
  map-move free [] i s = refl
  map-move free (j ∷ jobs) zero s = refl
  map-move free (j ∷ jobs) (suc i) s =
      ap (◌∷◌ j.id) (map-move (free && is_spawned j.stage) jobs i s)

-- What each step keeps, every run keeps.
pub run-keeps :
    (u : Setup) (P : Pool → Type 0)
    → ((i : ℕ) (p : Pool) → P p → P (step u i p))
    → (order : List ℕ) (p : Pool) → P p
    → P (run u order p)
unfolding run
run-keeps u P h [] p k = k
run-keeps u P h (i ∷ order) p k = run-keeps u P h order (step u i p) (h i p k)
