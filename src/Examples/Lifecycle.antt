-- ===== src/Examples/Lifecycle.antt =====
-- Lanes and groups of the org acme.
use Prim.Native.Nat.{◌^◌}
use srm.Prelude.{
  ℕ, ◌+◌, ◌<◌, ◌≡◌, refl, ap, Option, none, some, List, [], ◌∷◌, length, All, arith, Text, codes,
  text_eq, true, Lacks,
}
use srm.Prelude.Int.{pos}
use srm.Config
use srm.Config.{Config, org_names}
use srm.Runner.Names.{ephemeral_svc_name}
use srm.Service.Reconcile.Model.{deleted}
use srm.Service.Lifecycle.Model.{◌>>=◌, guard, ask, query, act, RunnerDownload, Call, Site, Trail}
use srm.Service.Lifecycle.Access.{require_org, client, DeploySpec, at_least_one}
use srm.Service.Lifecycle.Commands.{set_retention, execute, recreate_ephemeral_slot}
use srm.Service.Lifecycle.Lanes
use srm.Service.Lifecycle.Groups
use srm.Service.Lifecycle.Allowed.{IsAllowed}
use srm.Service.Lifecycle.Safety.{execute-IsAllowed}
use srm.Service.Lifecycle.Additive.Lanes.{IsAdded, create_ephemeral_runners-IsAdditive}
use srm.Examples.Config.{config}
use srm.Examples.Manifest.{two}

abbrev acme : Text
acme = codes "acme"

abbrev download : RunnerDownload
download = record {
  os = codes "linux";
  arch = codes "x64";
  url = codes "https://example.com/actions-runner-linux-x64-2.335.1.tar.gz";
  sha256 = codes "00";
}

-- One lane is on the host.
abbrev pub site : Site
site = record {
  cfg = config;
  has_client = λ t org. true;
  list_groups = λ t org. some [];
  list_downloads = λ t org. some (download ∷ []);
  agent_id = λ t org name. some 7;
  mint_params = λ t org slot. none;
  pending_jit = λ t org slot. pos 7;
  list_ephemeral_units = λ t. some (ephemeral_svc_name acme (codes "1") ∷ []);
  succeeds = λ t c. true;
  group_reply = λ t c. none;
  token_reply = λ t org. some (codes "token");
  delete_reply = λ t org id. deleted;
  saves = λ t. true;
  now_stamp = λ t. [];
}

abbrev pub start : Trail
start = record { now = 0; manifest = two; log = [] }

execute-IsAllowed_example :
    All (IsAllowed site acme) (execute (recreate_ephemeral_slot acme (codes "1")) site start).1.log
execute-IsAllowed_example =
    execute-IsAllowed site (recreate_ephemeral_slot acme (codes "1")) start refl

abbrev two_lanes : DeploySpec
two_lanes = record {
  org = acme;
  count = pos 2;
  name_prefix = [];
  labels = [];
  group = [];
  group_id = pos 0;
  profile = [];
}

dotless : All (Lacks b'.') (org_names config)
unfolding org_names
dotless = ground arith

few :
    (now : ℕ) (units : List Text)
    → site.list_ephemeral_units now ≡ some units
    → at_least_one two_lanes.count + length units < 2 ^ 63
few now units e = omega (arith, size e)
  where
    count : Option (List Text) → ℕ
    count none = 0
    count (some xs) = length xs

    size : some (ephemeral_svc_name acme (codes "1") ∷ []) ≡ some units → 1 ≡ length units
    size p = ap count p

create_ephemeral_runners-IsAdditive_example :
    All (IsAdded site acme) (Lanes.create_ephemeral_runners two_lanes site start).1.log
create_ephemeral_runners-IsAdditive_example =
    create_ephemeral_runners-IsAdditive site two_lanes start refl dotless few

retention_set :
    (execute (set_retention acme (pos 30)) site start).1.log ≡ Call.set_retention acme (pos 30) ∷ []
unfolding execute Groups.set_retention Groups.change ◌>>=◌ require_org guard ask text_eq Config.org
    client query act
retention_set = refl
