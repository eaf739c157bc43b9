-- ===== src/Examples/Bulk.antt =====
-- The deletion of three runners, two at a time, of which GitHub refuses one.
use srm.Prelude.{
  ℕ, ◌*◌, ◌≤◌, ◌≡◌, refl, true, none, some, List, [], ◌∷◌, ◌++◌, length, Bool, ltb, zero, suc,
  arith, Text, codes, text_eq, if◌then◌else◌, ◌==◌,
}
use srm.Prelude.Int.{ℤ, pos, negsuc}
use srm.Config
use srm.Service.Reconcile.Model.{error}
use srm.Service.Cycle.{require_org}
use srm.Service.Bulk.{Setup, api_error, AreEnded, running, run, start, total_of, bulk_delete}
use srm.Service.Bulk.Bounded.{IsLimited, bulk_delete_bounded}
use srm.Service.Bulk.Outcome.{IsDone, bulk_delete-IsDone}
use srm.Service.Bulk.Completion.{IsOpen, bulk_delete_completes}
use srm.Examples.Config.{config}

abbrev acme : Text
acme = codes "acme"

-- A negative limit is none.
abbrev is_below : ℤ → ℕ → Bool
is_below (pos limit) n = ltb n limit
is_below (negsuc k) n = true

abbrev setup : Setup
setup = record {
  cfg = record config { concurrency = pos 2 };
  has_client = true;
  has_progress = true;
  admits = is_below;
  delete_reply = λ t id. if id == 8 then some (error 403) else none;
  receives = λ d. true;
}

abbrev ids : List ℕ
ids = 7 ∷ 8 ∷ 9 ∷ []

-- The second is answered before the first, and the third starts when the second has ended.
abbrev order : List ℕ
order = 0 ∷ 1 ∷ 2 ∷ 1 ∷ 1 ∷ 1 ∷ 1 ∷ 2 ∷ 0 ∷ 0 ∷ 2 ∷ 2 ∷ 2 ∷ 0 ∷ 2 ∷ 0 ∷ []

configured : require_org setup.cfg acme ≡ true
unfolding Config.org text_eq
configured = refl

ended : AreEnded (run setup order (start ids)).jobs
unfolding run start total_of
ended = (refl, (refl, (refl, tt)))

setup-IsLimited : IsLimited setup
setup-IsLimited n r h = ground (arith, h)

setup-IsOpen : IsOpen setup
setup-IsOpen (pos zero) h = absurd (h refl)
setup-IsOpen (pos (suc n)) h = ground arith
setup-IsOpen (negsuc n) h = refl

bulk_delete_bounded_example : running (bulk_delete setup acme ids (0 ∷ 1 ∷ 2 ∷ [])).1.jobs ≤ 2
bulk_delete_bounded_example =
    bulk_delete_bounded setup acme ids (0 ∷ 1 ∷ 2 ∷ []) 2 setup-IsLimited refl

bulk_delete-IsDone_example :
    IsDone setup ids
      (bulk_delete setup acme ids order).0
      (bulk_delete setup acme ids order).1.shared.calls
bulk_delete-IsDone_example = bulk_delete-IsDone setup acme ids order configured refl ended

bulk_delete_completes_example :
    (rest : List ℕ) × (length rest ≤ 5 * length ids)
    × AreEnded (bulk_delete setup acme ids (0 ∷ 1 ∷ [] ++ rest)).1.jobs
bulk_delete_completes_example =
    bulk_delete_completes setup acme ids (0 ∷ 1 ∷ []) configured refl (λ d. refl) setup-IsOpen
      (λ e. ground arith)

deletes :
    (bulk_delete setup acme ids order).0
    ≡ record { id = 7; err = none }
      ∷ record { id = 8; err = some (api_error (error 403)) }
      ∷ record { id = 9; err = none }
      ∷ []
unfolding bulk_delete Config.org text_eq total_of
deletes = refl
