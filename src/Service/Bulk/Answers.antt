-- ===== src/Service/Bulk/Answers.antt =====
-- Whose answer an error of BulkDelete is, and whose deletion is still to be asked for.
use srm.Prelude.{
  ℕ, ◌+◌, ◌≡◌, refl, Bool, true, false, ◌&&◌, ◌==◌, ◌⊎◌, Option, none, List, [], ◌∷◌, length, arith,
  if_both, if_split, inl, inr,
}
use srm.Service.Bulk.{
  BulkError, Setup, Stage, waiting, started, answered, written, counted, ended, Job, Shared,
  as_error, advance, one_if,
}

-- How often an id is in a list
unfoldable pub times : ℕ → List ℕ → ℕ
times k [] = 0
times k (id ∷ ids) = one_if (id == k) + times k ids

-- DeleteRunner was called with `id` when `t` calls had been made.
abbrev pub WasCall : ℕ → ℕ → List ℕ → Type 0
WasCall t id [] = ⊥
WasCall t id (c ∷ calls) = ((t ≡ length calls) × (id ≡ c)) ⊎ WasCall t id calls

-- The error is GitHub's answer to one of the calls, or there is none in a dry run.
abbrev pub IsAnswer : Setup → List ℕ → ℕ → Option BulkError → Type 0
IsAnswer u calls id e =
    ((u.cfg.dry_run ≡ true) × (e ≡ none))
    ⊎ ((t : ℕ) × WasCall t id calls × (e ≡ as_error (u.delete_reply t id)))

abbrev pub StageAnswered : Setup → List ℕ → ℕ → Stage → Type 0
StageAnswered u calls id waiting = Unit {0}
StageAnswered u calls id started = Unit {0}
StageAnswered u calls id (answered e) = IsAnswer u calls id e
StageAnswered u calls id (written e) = IsAnswer u calls id e
StageAnswered u calls id (counted e d) = IsAnswer u calls id e
StageAnswered u calls id (ended e) = IsAnswer u calls id e

later :
    (u : Setup) (calls : List ℕ) (c id : ℕ) (e : Option BulkError)
    → IsAnswer u calls id e
    → IsAnswer u (c ∷ calls) id e
later u calls c id e (inl h) = inl h
later u calls c id e (inr (t, w, h)) = inr (t, inr w, h)

StageAnswered-later :
    (u : Setup) (calls : List ℕ) (c id : ℕ) (stage : Stage)
    → StageAnswered u calls id stage
    → StageAnswered u (c ∷ calls) id stage
StageAnswered-later u calls c id waiting h = tt
StageAnswered-later u calls c id started h = tt
StageAnswered-later u calls c id (answered e) h = later u calls c id e h
StageAnswered-later u calls c id (written e) h = later u calls c id e h
StageAnswered-later u calls c id (counted e d) h = later u calls c id e h
StageAnswered-later u calls c id (ended e) h = later u calls c id e h

module _ (u : Setup) (total : ℕ) where
  pub others-StageAnswered :
      (id k : ℕ) (free : Bool) (stage other : Stage) (s : Shared)
      → StageAnswered u s.calls k other
      → StageAnswered u (advance u total id free stage s).1.calls k other
  unfolding advance
  others-StageAnswered id k free waiting other s h = h
  others-StageAnswered id k free started other s h =
      if_both (λ (o : Stage × Shared). StageAnswered u o.1.calls k other) u.cfg.dry_run h
        (StageAnswered-later u s.calls id k other h)
  others-StageAnswered id k free (answered e) other s h = h
  others-StageAnswered id k free (written e) other s h =
      if_both (λ (o : Stage × Shared). StageAnswered u o.1.calls k other) u.has_progress h h
  others-StageAnswered id k free (counted e d) other s h =
      if_both (λ (o : Stage × Shared). StageAnswered u o.1.calls k other) (u.receives d) h h
  others-StageAnswered id k free (ended e) other s h = h

  pub self-StageAnswered :
      (id : ℕ) (free : Bool) (stage : Stage) (s : Shared)
      → StageAnswered u s.calls id stage
      → StageAnswered u
          (advance u total id free stage s).1.calls
          id
          (advance u total id free stage s).0
  unfolding advance
  self-StageAnswered id free waiting s h = if_both (StageAnswered u s.calls id) free tt tt
  self-StageAnswered id free started s h =
      if_split (λ (o : Stage × Shared). StageAnswered u o.1.calls id o.0) u.cfg.dry_run
        (λ e. inl (e, refl)) (λ e. inr (length s.calls, inl (refl, refl), refl))
  self-StageAnswered id free (answered e) s h = h
  self-StageAnswered id free (written e) s h =
      if_both (λ (o : Stage × Shared). StageAnswered u o.1.calls id o.0) u.has_progress h h
  self-StageAnswered id free (counted e d) s h =
      if_both (λ (o : Stage × Shared). StageAnswered u o.1.calls id o.0) (u.receives d) h h
  self-StageAnswered id free (ended e) s h = h

-- Whether the deletion of `k` is still to be asked for
abbrev pub is_unasked : Stage → Bool
is_unasked waiting = true
is_unasked started = true
is_unasked (answered e) = false
is_unasked (written e) = false
is_unasked (counted e d) = false
is_unasked (ended e) = false

abbrev pub unasked_one : ℕ → Job → ℕ
unasked_one k j = one_if (j.id == k && is_unasked j.stage)

pub advance-unasked :
    (u : Setup) (total k : ℕ) (free : Bool) (id : ℕ) (stage : Stage) (s : Shared)
    → u.cfg.dry_run ≡ false
    → one_if (id == k && is_unasked (advance u total id free stage s).0)
        + times k (advance u total id free stage s).1.calls
      ≡ one_if (id == k && is_unasked stage) + times k s.calls
unfolding advance times
advance-unasked u total k free id waiting s e =
    if_both
      (λ stage.
        one_if (id == k && is_unasked stage) + times k s.calls
        ≡ one_if (id == k && true) + times k s.calls)
      free refl refl
advance-unasked u total k free id started s e =
    if_split
      (λ (o : Stage × Shared).
        one_if (id == k && is_unasked o.0) + times k o.1.calls
        ≡ one_if (id == k && true) + times k s.calls)
      u.cfg.dry_run (λ f. absurd (cc (e, f))) (λ f. ground arith)
advance-unasked u total k free id (answered x) s e = refl
advance-unasked u total k free id (written x) s e =
    if_both
      (λ (o : Stage × Shared).
        one_if (id == k && is_unasked o.0) + times k o.1.calls
        ≡ one_if (id == k && false) + times k s.calls)
      u.has_progress refl refl
advance-unasked u total k free id (counted x d) s e =
    if_both
      (λ (o : Stage × Shared).
        one_if (id == k && is_unasked o.0) + times k o.1.calls
        ≡ one_if (id == k && false) + times k s.calls)
      (u.receives d) refl refl
advance-unasked u total k free id (ended x) s e = refl

pub advance-calls :
    (u : Setup) (total : ℕ) (free : Bool) (id : ℕ) (stage : Stage) (s : Shared)
    → u.cfg.dry_run ≡ true
    → (advance u total id free stage s).1.calls ≡ s.calls
unfolding advance
advance-calls u total free id waiting s e = refl
advance-calls u total free id started s e =
    if_split (λ (o : Stage × Shared). o.1.calls ≡ s.calls) u.cfg.dry_run (λ f. refl)
      (λ f. absurd (cc (e, f)))
advance-calls u total free id (answered x) s e = refl
advance-calls u total free id (written x) s e =
    if_both (λ (o : Stage × Shared). o.1.calls ≡ s.calls) u.has_progress refl refl
advance-calls u total free id (counted x d) s e =
    if_both (λ (o : Stage × Shared). o.1.calls ≡ s.calls) (u.receives d) refl refl
advance-calls u total free id (ended x) s e = refl
