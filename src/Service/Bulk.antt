-- ===== src/Service/Bulk.antt =====
-- BulkDelete of internal/service/bulk.go: one goroutine for each runner, under the limit of an errgroup.
-- An interleaving is the list of the goroutines that take a step, one after the other; the steps are those
-- between which another goroutine can be seen: the start, GitHub's answer, the write of the result, the
-- count under the lock, and the send, which blocks while the event is not received.
pub mod Moves
pub mod Bounded
pub mod Answers
pub mod Outcome
pub mod Completion
use srm.Prelude.{
  ℕ, zero, suc, ◌+◌, Bool, true, false, ◌&&◌, not, Option, none, some, List, [], ◌∷◌, map, length,
  All, ◌≡◌, if◌then◌else◌, Text,
}
use srm.Prelude.Int.{ℤ}
use srm.Config.{Config}
use srm.Service.Reconcile.Model.{Error}
use srm.Service.Cycle.{require_org}

pub data BulkError : Type 0 where
  no_org no_client : BulkError
  api_error : Error → BulkError

pub record DeleteResult : Type 0 where
  pub id : ℕ
  pub err : Option BulkError

pub record ProgressEvent : Type 0 where
  pub index : ℕ
  pub total : ℕ
  pub err : Option BulkError

-- Where a goroutine is; it has ended, or not been started.
pub data Stage : Type 0 where
  waiting started : Stage
  answered written ended : Option BulkError → Stage
  counted : Option BulkError → ℕ → Stage

pub record Job : Type 0 where
  pub id : ℕ
  pub stage : Stage

-- What the goroutines share; the calls of DeleteRunner and the events, the last first
pub record Shared : Type 0 where
  pub done : ℕ
  pub calls : List ℕ
  pub events : List ProgressEvent

pub record Pool : Type 0 where
  pub jobs : List Job
  pub shared : Shared

pub record Setup : Type 0 where
  pub cfg : Config
  pub has_client : Bool
  pub has_progress : Bool
  -- errgroup: whether Go starts one more under a limit, while so many run
  pub admits : ℤ → ℕ → Bool
  -- DeleteRunner, by the number of calls before it
  pub delete_reply : ℕ → ℕ → Option Error
  -- Whether the progress channel's receiver takes the event of that number
  pub receives : ℕ → Bool

abbrev pub as_error : Option Error → Option BulkError
as_error none = none
as_error (some e) = some (api_error e)

-- The next step of the goroutine of `id`, where `free` tells whether it may be started
unfoldable pub advance : Setup → ℕ → ℕ → Bool → Stage → Shared → Stage × Shared
advance u total id free waiting s = (if free then started else waiting, s)
advance u total id free started s = if u.cfg.dry_run then (answered none, s) else (
  answered (as_error (u.delete_reply (length s.calls) id)),
  record s { calls = id ∷ s.calls },
)
advance u total id free (answered e) s = (written e, s)
advance u total id free (written e) s =
    if u.has_progress
    then (counted e (suc s.done), record s { done = suc s.done })
    else (ended e, s)
advance u total id free (counted e d) s =
    if u.receives d
    then (ended e, record s { events = record { index = d; total = total; err = e } ∷ s.events })
    else (counted e d, s)
advance u total id free (ended e) s = (ended e, s)

abbrev pub is_spawned : Stage → Bool
is_spawned waiting = false
is_spawned started = true
is_spawned (answered e) = true
is_spawned (written e) = true
is_spawned (counted e d) = true
is_spawned (ended e) = true

-- The goroutine holds one of the group's slots.
abbrev pub is_running : Stage → Bool
is_running (ended e) = false
is_running waiting = false
is_running started = true
is_running (answered e) = true
is_running (written e) = true
is_running (counted e d) = true

abbrev pub is_ended : Stage → Bool
is_ended (ended e) = true
is_ended waiting = false
is_ended started = false
is_ended (answered e) = false
is_ended (written e) = false
is_ended (counted e d) = false

abbrev pub set_stage : Job → Stage → Job
set_stage j stage = record j { stage = stage }

-- The step of the goroutine number `i`; the loop starts them in their order.
unfoldable pub move : Setup → ℕ → Bool → List Job → ℕ → Shared → List Job × Shared
unfolding advance
move u total free [] i s = ([], s)
move u total free (j ∷ jobs) zero s =
    let (stage, s') = advance u total j.id free j.stage s in (set_stage j stage ∷ jobs, s')
move u total free (j ∷ jobs) (suc i) s =
    let (jobs', s') = move u total (free && is_spawned j.stage) jobs i s in (j ∷ jobs', s')

abbrev pub one_if : Bool → ℕ
one_if true = 1
one_if false = 0

unfoldable pub total_of : (Job → ℕ) → List Job → ℕ
total_of f [] = 0
total_of f (j ∷ jobs) = f j + total_of f jobs

abbrev pub running_one : Job → ℕ
running_one j = one_if (is_running j.stage)

-- How many slots are taken
abbrev pub running : List Job → ℕ
running = total_of running_one

unfoldable pub step : Setup → ℕ → Pool → Pool
unfolding move
step u i p =
    let (jobs, s) =
      move u (length p.jobs) (u.admits u.cfg.concurrency (running p.jobs)) p.jobs i p.shared in
    record { jobs = jobs; shared = s }

unfoldable pub run : Setup → List ℕ → Pool → Pool
unfolding step
run u [] p = p
run u (i ∷ order) p = run u order (step u i p)

abbrev new_job : ℕ → Job
new_job id = record { id = id; stage = waiting }

unfoldable pub start : List ℕ → Pool
start ids = record { jobs = map new_job ids; shared = record { done = 0; calls = []; events = [] } }

-- What stands in the results for a goroutine
abbrev pub result_at : ℕ → Stage → DeleteResult
result_at id (written e) = record { id = id; err = e }
result_at id (counted e d) = record { id = id; err = e }
result_at id (ended e) = record { id = id; err = e }
result_at id waiting = record { id = 0; err = none }
result_at id started = record { id = 0; err = none }
result_at id (answered e) = record { id = 0; err = none }

abbrev pub result_of : Job → DeleteResult
result_of j = result_at j.id j.stage

-- All goroutines have ended: g.Wait returns.
abbrev pub AreEnded : List Job → Type 0
AreEnded = All (λ j. is_ended j.stage ≡ true)

abbrev pub all_fail : BulkError → List ℕ → List DeleteResult
all_fail e = map (λ id. record { id = id; err = some e })

-- BulkDelete, when the goroutines have taken the steps of `order`
unfoldable pub bulk_delete : Setup → Text → List ℕ → List ℕ → List DeleteResult × Pool
unfolding run start
bulk_delete u org ids order =
    if not (require_org u.cfg org)
    then (all_fail no_org ids, start ids)
    else if not u.has_client
    then (all_fail no_client ids, start ids)
    else let p = run u order (start ids) in (map result_of p.jobs, p)
