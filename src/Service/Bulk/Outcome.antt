-- ===== src/Service/Bulk/Outcome.antt =====
-- What BulkDelete has done when all its goroutines have ended.
use srm.Prelude.{
  ℕ, ◌+◌, ◌≡◌, refl, ap, ap₂, ◌∙◌, Bool, true, false, ◌&&◌, ◌==◌, List, [], ◌∷◌, map, length, arith,
  Text, All, if_split, if◌then◌else◌,
}
use srm.Service.Cycle.{require_org}
use srm.Service.Bulk.{
  DeleteResult, Setup, Stage, waiting, started, answered, written, counted, ended, Job, Shared,
  Pool, total_of, is_ended, one_if, running, step, run, new_job, start, result_at, result_of,
  AreEnded, bulk_delete,
}
use srm.Service.Bulk.Moves.{move-total, move-shared, move-All, map-move, run-keeps}
use srm.Service.Bulk.Answers.{
  times, IsAnswer, StageAnswered, others-StageAnswered, self-StageAnswered, is_unasked, unasked_one,
  advance-unasked, advance-calls,
}

abbrev job_id : Job → ℕ
job_id j = j.id

abbrev JobAnswered : Setup → Shared → Job → Type 0
JobAnswered u s j = StageAnswered u s.calls j.id j.stage

record IsSound (u : Setup) (ids : List ℕ) (p : Pool) : Type 0 where
  is_ordered : map job_id p.jobs ≡ ids
  are_answered : All (JobAnswered u p.shared) p.jobs
  is_asked :
      u.cfg.dry_run ≡ false
      → (k : ℕ) → total_of (unasked_one k) p.jobs + times k p.shared.calls ≡ times k ids
  is_dry : u.cfg.dry_run ≡ true → p.shared.calls ≡ []

step-IsSound :
    (u : Setup) (ids : List ℕ) (i : ℕ) (p : Pool) → IsSound u ids p → IsSound u ids (step u i p)
unfolding step
step-IsSound u ids i p h =
    let n : ℕ = length p.jobs in
    let free : Bool = u.admits u.cfg.concurrency (running p.jobs) in
    record {
      is_ordered = map-move u n free p.jobs i p.shared ∙ h.is_ordered;
      are_answered =
          move-All u n (JobAnswered u)
            (λ b j k s q. others-StageAnswered u n j.id k.id b j.stage k.stage s q)
            (λ b j s q. self-StageAnswered u n j.id b j.stage s q) free p.jobs i p.shared
            h.are_answered;
      is_asked = λ e k.
          move-total u n (unasked_one k) (λ s. times k s.calls)
            (λ b j s. advance-unasked u n k b j.id j.stage s e) free p.jobs i p.shared
          ∙ h.is_asked e k;
      is_dry = λ e.
          move-shared u n (λ s. s.calls ≡ []) (λ b j s q. advance-calls u n b j.id j.stage s e ∙ q)
            free p.jobs i p.shared (h.is_dry e);
    }

start-IsSound : (u : Setup) (ids : List ℕ) → IsSound u ids (start ids)
unfolding start total_of times
start-IsSound u ids = record {
  is_ordered = ids_of ids;
  are_answered = none_answered ids;
  is_asked = λ e k. all_unasked k ids;
  is_dry = λ e. refl;
}
  where
    ids_of : (ids : List ℕ) → map job_id (map new_job ids) ≡ ids
    ids_of [] = refl
    ids_of (id ∷ ids) = ap (◌∷◌ id) (ids_of ids)

    none_answered : (ids : List ℕ) → All (JobAnswered u (start []).shared) (map new_job ids)
    none_answered [] = tt
    none_answered (id ∷ ids) = (tt, none_answered ids)

    all_unasked :
        (k : ℕ) (ids : List ℕ)
        → total_of (unasked_one k) (map new_job ids) + times k [] ≡ times k ids
    all_unasked k [] = refl
    all_unasked k (id ∷ ids) = ground (arith, all_unasked k ids)

-- The results are those of the ids, in their order; each error is GitHub's answer to a call for its id, or
-- none in a dry run; and DeleteRunner was called for each id as often as it was given, or never.
pub record IsDone (u : Setup) (ids : List ℕ) (results : List DeleteResult) (calls : List ℕ)
    : Type 0 where
  pub is_ordered : map (λ (r : DeleteResult). r.id) results ≡ ids
  pub are_answers : All (λ (r : DeleteResult). IsAnswer u calls r.id r.err) results
  pub is_once : (k : ℕ) → times k calls ≡ (if u.cfg.dry_run then 0 else times k ids)

result-id : (id : ℕ) (stage : Stage) → is_ended stage ≡ true → (result_at id stage).id ≡ id
result-id id (ended e) h = refl
result-id id waiting h = absurd (cc h)
result-id id started h = absurd (cc h)
result-id id (answered e) h = absurd (cc h)
result-id id (written e) h = refl
result-id id (counted e d) h = refl

result-IsAnswer :
    (u : Setup) (calls : List ℕ) (id : ℕ) (stage : Stage)
    → is_ended stage ≡ true
    → StageAnswered u calls id stage
    → IsAnswer u calls (result_at id stage).id (result_at id stage).err
result-IsAnswer u calls id (ended e) h q = q
result-IsAnswer u calls id waiting h q = absurd (cc h)
result-IsAnswer u calls id started h q = absurd (cc h)
result-IsAnswer u calls id (answered e) h q = absurd (cc h)
result-IsAnswer u calls id (written e) h q = q
result-IsAnswer u calls id (counted e d) h q = q

ended-asked :
    (k id : ℕ) (stage : Stage) → is_ended stage ≡ true → one_if (id == k && is_unasked stage) ≡ 0
ended-asked k id (ended e) h = ground arith
ended-asked k id waiting h = absurd (cc h)
ended-asked k id started h = absurd (cc h)
ended-asked k id (answered e) h = ground arith
ended-asked k id (written e) h = ground arith
ended-asked k id (counted e d) h = ground arith

results-ids :
    (jobs : List Job)
    → AreEnded jobs
    → map (λ (r : DeleteResult). r.id) (map result_of jobs) ≡ map job_id jobs
results-ids [] h = refl
results-ids (j ∷ jobs) (e, h) = ap₂ ◌∷◌ (result-id j.id j.stage e) (results-ids jobs h)

results-AreAnswers :
    (u : Setup) (s : Shared) (jobs : List Job)
    → AreEnded jobs
    → All (JobAnswered u s) jobs
    → All (λ (r : DeleteResult). IsAnswer u s.calls r.id r.err) (map result_of jobs)
results-AreAnswers u s [] h q = tt
results-AreAnswers u s (j ∷ jobs) (e, h) (a, q) =
    (result-IsAnswer u s.calls j.id j.stage e a, results-AreAnswers u s jobs h q)

total-unasked : (k : ℕ) (jobs : List Job) → AreEnded jobs → total_of (unasked_one k) jobs ≡ 0
unfolding total_of
total-unasked k [] h = refl
total-unasked k (j ∷ jobs) (e, h) =
    omega (arith, ended-asked k j.id j.stage e, total-unasked k jobs h)

IsSound-IsDone :
    (u : Setup) (ids : List ℕ) (p : Pool)
    → IsSound u ids p
    → AreEnded p.jobs
    → IsDone u ids (map result_of p.jobs) p.shared.calls
unfolding times
IsSound-IsDone u ids p h e = record {
  is_ordered = results-ids p.jobs e ∙ h.is_ordered;
  are_answers = results-AreAnswers u p.shared p.jobs e h.are_answered;
  is_once = λ k.
      if_split (λ n. times k p.shared.calls ≡ n) u.cfg.dry_run (λ d. ap (times k) (h.is_dry d))
        (λ d. omega (arith, h.is_asked d k, total-unasked k p.jobs e));
}

-- In whatever order the goroutines take their steps, when all have ended, the org is configured and a client
-- can be made: the results stand in the order of the ids, each error is GitHub's answer to a call for that
-- id (or none in a dry run), and DeleteRunner was called for each id exactly as often as it was given (or
-- never in a dry run). A refused deletion stops none of the others.
pub bulk_delete-IsDone :
    (u : Setup) (org : Text) (ids order : List ℕ)
    → require_org u.cfg org ≡ true
    → u.has_client ≡ true
    → AreEnded (run u order (start ids)).jobs
    → IsDone u ids (bulk_delete u org ids order).0 (bulk_delete u org ids order).1.shared.calls
unfolding bulk_delete
bulk_delete-IsDone u org ids order o c e =
    let h : IsSound u ids (run u order (start ids)) =
      run-keeps u (IsSound u ids) (step-IsSound u ids) order (start ids) (start-IsSound u ids) in
    let done : IsDone u ids (map result_of (run u order (start ids)).jobs)
        (run u order (start ids)).shared.calls =
      IsSound-IsDone u ids (run u order (start ids)) h e in
    simp (o, c) done
