-- ===== src/Service/Lifecycle/Model.antt =====
-- What the operations of internal/service on runners, lanes and groups call: GitHub, the orchestrator of
-- the host (internal/runner), the manifest and the clock. An answer may change with the time, which each
-- call moves on. The progress channels are left out.
use srm.Prelude.{ℕ, suc, Bool, Option, none, some, List, ◌∷◌, if◌then◌else◌, Text}
use srm.Prelude.Int.{ℤ}
use srm.Config.{Config}
use srm.Service.Manifest.{StateManifest, RunnerRecord, Kind, put_created, remove}
use srm.Service.Reconcile.Model.{Reply}
use srm.Service.Cycle.{EphemeralParams}
use srm.Service.Upgrade.Model.{Download}

pub record Group : Type 0 where
  pub id : ℤ
  pub name : Text
  pub visibility : Text

pub record RunnerDownload : Type 0 where
  pub os : Text
  pub arch : Text
  pub url : Text
  pub sha256 : Text

pub record RunnerSpec : Type 0 where
  pub name : Text
  pub org : Text
  pub url : Text
  pub labels : List Text
  pub group : Text

pub record EphemeralSlotSpec : Type 0 where
  pub org : Text
  pub slot : Text
  pub url : Text
  pub labels : List Text
  pub group_id : ℤ

pub data Failure : Type 0 where
  no_org not_configured no_client no_profile wrong_nature : Failure
  no_groups no_group not_grouped default_group no_downloads no_download no_token : Failure
  no_base no_units bad_slot out_of_fuel no_id host_error api_error : Failure
  not_deregistered : ℤ → Failure
  not_created not_destroyed : Text → Failure → Failure

-- A call that changes GitHub, the host or the manifest
pub data Call : Type 0 where
  create_group : Text → Text → Text → Call
  update_group : Text → ℤ → Text → Text → Call
  delete_group : Text → ℤ → Call
  set_group_repos : Text → ℤ → List ℕ → Call
  add_runner_to_group : Text → ℤ → ℕ → Call
  set_retention : Text → ℤ → Call
  mint_token : Text → Call
  ensure_base : Text → Call
  create_runner : RunnerSpec → Download → Call
  ensure_slot : EphemeralSlotSpec → Download → Call
  remove_runner remove_slot refresh_unit : Text → Text → Call
  delete_runner : Text → ℤ → Call
  put_entry : RunnerRecord → Call
  drop_entry : Kind → Text → Text → Call

pub record Site : Type 0 where
  pub cfg : Config
  pub has_client : ℕ → Text → Bool
  pub list_groups : ℕ → Text → Option (List Group)
  pub list_downloads : ℕ → Text → Option (List RunnerDownload)
  pub agent_id : ℕ → Text → Text → Option ℕ
  pub mint_params : ℕ → Text → Text → Option EphemeralParams
  pub pending_jit : ℕ → Text → Text → ℤ
  pub list_ephemeral_units : ℕ → Option (List Text)
  -- Whether a call succeeds, and what it gives
  pub succeeds : ℕ → Call → Bool
  pub group_reply : ℕ → Call → Option Group
  pub token_reply : ℕ → Text → Option Text
  pub delete_reply : ℕ → Text → ℤ → Reply
  -- Whether the manifest is saved
  pub saves : ℕ → Bool
  pub now_stamp : ℕ → Text

-- The time, the manifest, and the calls, the last first
pub record Trail : Type 0 where
  pub now : ℕ
  pub manifest : StateManifest
  pub log : List Call

pub data Result (A : Type 0) : Type 0 where
  ok : A → Result A
  err : Failure → Result A

abbrev pub Op : Type 0 → Type 0
Op A = Site → Trail → Result A × Trail

abbrev pub go_on :
    {A B : Type 0} → Result A × Trail → (A → Trail → Result B × Trail) → Result B × Trail
go_on (ok a, t) f = f a t
go_on (err e, t) f = (err e, t)

infixl 5 ◌>>=◌ ◌>>◌
unfoldable pub ◌>>=◌ : {A B : Type 0} → Op A → (A → Op B) → Op B
◌>>=◌ m f w t = go_on (m w t) (λ a t'. f a w t')

abbrev pub ◌>>◌ : {A B : Type 0} → Op A → Op B → Op B
m >> k = m >>= λ _. k

unfoldable pub pure : {A : Type 0} → A → Op A
pure a w t = (ok a, t)

unfoldable pub raise : {A : Type 0} → Failure → Op A
raise e w t = (err e, t)

unfoldable pub guard : Bool → Failure → Op (Unit {0})
guard b e w t = (if b then ok tt else err e, t)

unfoldable pub or_raise : {A : Type 0} → Option A → Failure → Op A
or_raise o e w t = (elim o [ none ↦ err e | some a ↦ ok a ], t)

-- What the configuration says
unfoldable pub ask : {A : Type 0} → (Config → A) → Op A
ask f w t = (ok (f w.cfg), t)

-- A question, which changes nothing
unfoldable pub query : {A : Type 0} → (Site → ℕ → A) → Op A
query f w t = (ok (f w t.now), record t { now = suc t.now })

-- A call that changes something, and its answer
unfoldable pub act : {A : Type 0} → Call → (Site → ℕ → A) → Op A
act c f w t = (ok (f w t.now), record t { now = suc t.now; log = c ∷ t.log })

abbrev pub call : Call → Op Bool
call c = act c (λ w t. w.succeeds t c)

-- recordCreated and forget; a failure to save is ignored.
unfoldable pub record_created : RunnerRecord → Op (Unit {0})
record_created rec w t = (
  ok tt,
  record t {
    now = suc t.now;
    manifest = if w.saves t.now then put_created (w.now_stamp t.now) rec t.manifest else t.manifest;
    log = put_entry rec ∷ t.log;
  },
)

unfoldable pub forget : Kind → Text → Text → Op (Unit {0})
forget kind org name w t = (
  ok tt,
  record t {
    now = suc t.now;
    manifest = if w.saves t.now then remove t.manifest kind org name else t.manifest;
    log = drop_entry kind org name ∷ t.log;
  },
)

-- An operation whose error is looked at
unfoldable pub attempt : {A : Type 0} → Op A → Op (Result A)
attempt m w t = let (r, t') = m w t in (ok r, t')
