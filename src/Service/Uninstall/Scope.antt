-- ===== src/Service/Uninstall/Scope.antt =====
-- What an uninstall touches.
use srm.Prelude.{
  ◌≡◌, refl, Bool, true, false, Option, none, some, List, [], ◌∷◌, All, All-append, All-weaken,
  if_split, Text,
}
use srm.Service.Lifecycle.Model
use srm.Service.Lifecycle.Model.{
  Call, remove_runner, remove_slot, Failure, host_error, Result, ok, err, Trail, Op, ◌>>=◌, ◌>>◌,
  pure, guard, call,
}
use srm.Service.Lifecycle.Commands.{called_org}
use srm.Service.Lifecycle.Rules.{Calls, Calls-pure, Calls-bind}
use srm.Service.Lifecycle.Allowed.{IsAllowed}
use srm.Service.Lifecycle.Allowed.Runners.{destroy_runner-Calls}
use srm.Service.Lifecycle.Allowed.Lanes.{destroy_ephemeral_slot-Calls}
use srm.Service.Uninstall.Model.{TeardownError, lane_left, runner_left}
use srm.Service.Uninstall.Plan.{in_scope, place, targets_of}
use srm.Service.Uninstall.Teardown.{apart, tear_lane, tear_runner, tear_all, tear_down}

-- A call is about an org in the scope of the uninstall, and this is no dry run.
pub record IsInScope (w : Model.Site) (filter : Text) (c : Call) : Type 0 where
  pub is_about : in_scope filter (called_org c) ≡ true
  pub is_live : w.cfg.dry_run ≡ false

abbrev AreTargets : Text → List (Text × Text) → Type 0
AreTargets filter = All (λ x. in_scope filter x.0 ≡ true)

place-AreTargets :
    (filter svc : Text) (o : Option (Text × Text)) (rest : List (Text × Text) × List Text)
    → AreTargets filter rest.0
    → AreTargets filter (place filter svc o rest).0
place-AreTargets filter svc none rest h = h
place-AreTargets filter svc (some (org, name)) rest h =
    if_split (AreTargets filter) (in_scope filter org) (λ e. (e, h)) (λ e. h)

pub targets_of-AreTargets :
    (parse : Text → Option (Text × Text)) (filter : Text) (units : List Text)
    → AreTargets filter (targets_of parse filter units).0
unfolding targets_of
targets_of-AreTargets parse filter [] = tt
targets_of-AreTargets parse filter (svc ∷ units) =
    place-AreTargets filter svc (parse svc) (targets_of parse filter units)
      (targets_of-AreTargets parse filter units)

module _ (w : Model.Site) (filter : Text) (live : w.cfg.dry_run ≡ false) where
  Calls-apart :
      {A : Type 0} (org : Text) (m : Op A)
      → in_scope filter org ≡ true
      → Calls w (IsAllowed w org) m
      → Calls w (IsInScope w filter) (apart m)
  unfolding apart
  Calls-apart org m s h = record {
    at = λ t k.
        All-append (IsInScope w filter) (m w (record t { log = [] })).1.log t.log
          (All-weaken _ _ (m w (record t { log = [] })).1.log
            (λ c a. record { is_about = rw (a.is_about) s; is_live = live })
            (h.at (record t { log = [] }) tt))
          k;
  }

  Calls-apart-call :
      (org : Text) (c : Call)
      → called_org c ≡ org
      → in_scope filter org ≡ true
      → Calls w (IsInScope w filter) (apart (call c >>= λ removed. guard removed host_error))
  unfolding apart ◌>>=◌ guard Model.act
  Calls-apart-call org c e s = record {
    at = λ t k. (record { is_about = rw e s; is_live = live }, k);
  }

  tear_lane-Calls :
      (keep : Bool) (org slot : Text)
      → in_scope filter org ≡ true
      → Calls w (IsInScope w filter) (apart (tear_lane keep org slot))
  unfolding tear_lane
  tear_lane-Calls true org slot s = Calls-apart-call org (remove_slot org slot) refl s
  tear_lane-Calls false org slot s = Calls-apart org _ s (destroy_ephemeral_slot-Calls w org slot)

  tear_runner-Calls :
      (keep : Bool) (org name : Text)
      → in_scope filter org ≡ true
      → Calls w (IsInScope w filter) (apart (tear_runner keep org name))
  unfolding tear_runner
  tear_runner-Calls true org name s = Calls-apart-call org (remove_runner org name) refl s
  tear_runner-Calls false org name s = Calls-apart org _ s (destroy_runner-Calls w org name)

  tear_all-Calls :
      (tear : Text → Text → Op (Unit {0})) (f : Text → Text → Failure → TeardownError)
      → ((org name : Text)
          → in_scope filter org ≡ true
          → Calls w (IsInScope w filter) (apart (tear org name)))
      → (targets : List (Text × Text)) → AreTargets filter targets
      → Calls w (IsInScope w filter) (tear_all tear f targets)
  unfolding tear_all
  tear_all-Calls tear f h [] k = Calls-pure _
  tear_all-Calls tear f h ((org, name) ∷ targets) (s, k) =
      Calls-bind (apart (tear org name)) _ (h org name s) (λ r.
        Calls-bind (tear_all tear f targets) _ (tear_all-Calls tear f h targets k)
          (λ errs. Calls-pure _))

  pub tear_down-Calls :
      (keep : Bool) (persistent lanes : List (Text × Text))
      → AreTargets filter persistent
      → AreTargets filter lanes
      → Calls w (IsInScope w filter) (tear_down keep persistent lanes)
  unfolding tear_down
  tear_down-Calls keep persistent lanes p l =
      Calls-bind (tear_all (tear_lane keep) lane_left lanes) _
        (tear_all-Calls (tear_lane keep) lane_left (tear_lane-Calls keep) lanes l)
        (λ lane_errs.
          Calls-bind (tear_all (tear_runner keep) runner_left persistent) _
            (tear_all-Calls (tear_runner keep) runner_left (tear_runner-Calls keep) persistent p)
            (λ errs. Calls-pure _))
