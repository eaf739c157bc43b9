-- ===== src/Examples/Uninstall.antt =====
-- The uninstall of a host that has a runner and a lane of the org acme.
use srm.Prelude.{◌≡◌, ◌⊎◌, refl, true, false, some, List, [], ◌∷◌, Text, codes}
use srm.Prelude.Int.{pos}
use srm.Runner.Names.{svc_name, ephemeral_svc_name}
use srm.Service.Uninstall.Model.{UninstallOpts, Site, Host}
use srm.Service.Uninstall.Plan.{plan}
use srm.Service.Uninstall.Run.{uninstall}
use srm.Service.Uninstall.Safety.{IsScoped, uninstall-IsScoped}
use srm.Service.Uninstall.Drained.{IsDrained, uninstall-IsDrained}
use srm.Examples.Lifecycle
use srm.Examples.Lifecycle.{start}
use srm.Examples.Reconcile.{world}

abbrev units : List Text
units = svc_name (codes "acme") (codes "ci") ∷ codes "actions.runner.other.ci.service" ∷ []

abbrev lanes : List Text
lanes = ephemeral_svc_name (codes "acme") (codes "1") ∷ []

abbrev site : Site
site = record {
  lifecycle = record Lifecycle.site { pending_jit = λ t org slot. pos 0 };
  list_units = some units;
  list_ephemeral_units = some lanes;
  world = world;
  config_path = codes "/etc/srm/config.yaml";
  config_dir = codes "/etc/srm";
  executable = some (codes "/usr/local/bin/srm");
  purge_base = λ users paths slice. true;
  backup = λ dir. some (codes "/var/backups/srm-config-1.tar.gz");
  remove_dir = true;
  remove_binary = true;
}

abbrev opts : UninstallOpts
opts = record {
  org = [];
  force = false;
  keep_config = false;
  keep_binary = false;
  keep_github = false;
  purge = true;
  backup_dir = [];
}

abbrev host : Host
host = record { trail = start; purges = [] }

uninstall-IsScoped_example : IsScoped site opts (uninstall site opts host).1
uninstall-IsScoped_example = uninstall-IsScoped site opts host refl refl

uninstall-IsDrained_example :
    ((uninstall site opts host).1 ≡ host)
    ⊎ (false ≡ true)
    ⊎ IsDrained site opts (plan site opts units lanes)
uninstall-IsDrained_example = uninstall-IsDrained site opts host units lanes refl refl
