-- ===== src/Runner/Units/Render.antt =====
-- renderDropIn, renderEphemeralUnit and renderSlice.
use srm.Prelude.{Bool, ◌&&◌, not, List, [], ◌∷◌, ◌++◌, if◌then◌else◌, Text, codes, text_eq}
use srm.Config.{ResourceLimits}
use srm.Config.Resources.{EnvVar, tool_cache_env}
use srm.Runner.Units.Templates.{
  line, concat, unlines, hardening_drop_in, ephemeral_hardening, ephemeral_hardening_din_d,
}

-- The fields of Options that a unit is rendered from
pub record Options : Type 0 where
  pub user : Text
  pub tool_cache : Text
  pub cache_root : Text
  pub resources : ResourceLimits
  pub isolated : Bool
  pub slice : Text
  pub slice_memory_max : Text
  pub self_exe : Text
  pub config_path : Text
  pub protect_proc : Bool
  pub din_d : Bool

abbrev pub default_self_exe : Text
default_self_exe = codes "/usr/local/bin/srm"

abbrev when : Bool → Text → Text
when b t = if b then t else []

abbrev write_directive : Text → Text → Text
write_directive key val = when (not (text_eq val [])) (line (concat (key ∷ codes "=" ∷ val ∷ [])))

abbrev environment : List EnvVar → Text
environment [] = []
environment (e ∷ env) =
    line (concat (codes "Environment=" ∷ e.key ∷ codes "=" ∷ e.val ∷ [])) ++ environment env

unfoldable pub write_env_and_limits : Options → Text
write_env_and_limits opts = concat (
    line (codes "Environment=AGENT_TOOLSDIRECTORY=" ++ opts.tool_cache)
    ∷ environment (tool_cache_env opts.cache_root)
    ∷ write_directive (codes "MemoryHigh") opts.resources.memory_high
    ∷ write_directive (codes "MemoryMax") opts.resources.memory_max
    ∷ write_directive (codes "MemorySwapMax") opts.resources.memory_swap_max
    ∷ write_directive (codes "CPUWeight") opts.resources.cpu_weight
    ∷ write_directive (codes "TasksMax") opts.resources.tasks_max
    ∷ [])

-- What follows the hardening block of a drop-in
unfoldable pub drop_in_settings : Options → Text
unfolding write_env_and_limits
drop_in_settings opts = concat (
    when opts.protect_proc (line (codes "ProtectProc=invisible"))
    ∷ write_directive (codes "Slice") opts.slice
    ∷ when (opts.isolated && not (text_eq opts.user [])) (line (codes "User=" ++ opts.user))
    ∷ write_env_and_limits opts
    ∷ [])

unfoldable pub render_drop_in : Options → Text
unfolding drop_in_settings
render_drop_in opts = unlines hardening_drop_in ++ drop_in_settings opts

abbrev pub exe : Options → Text
exe opts = if text_eq opts.self_exe [] then default_self_exe else opts.self_exe

abbrev pub config_flag : Options → Text
config_flag opts =
    if not (text_eq opts.config_path []) then codes " --config " ++ opts.config_path else []

-- What follows "Description=srm " and "ExecStart="
abbrev pub description : Text → Text → Text
description org slot =
    concat
      (codes "ephemeral runner slot " ∷ org ∷ codes "/" ∷ slot ∷ codes " (managed by srm)" ∷ [])

abbrev pub exec_start : Options → Text → Text → Text
exec_start opts org slot = concat (
    exe opts
    ∷ codes " _runner-cycle --org "
    ∷ org
    ∷ codes " --slot "
    ∷ slot
    ∷ config_flag opts
    ∷ [])

unfoldable pub render_ephemeral_unit : Options → Text → Text → Text → Text
unfolding write_env_and_limits
render_ephemeral_unit opts org slot work_dir = concat (
    line (codes "[Unit]")
    ∷ line (codes "Description=srm " ++ description org slot)
    ∷ line (codes "StartLimitIntervalSec=0")
    ∷ line []
    ∷ line (codes "[Service]")
    ∷ line (codes "Type=simple")
    ∷ line (codes "WorkingDirectory=" ++ work_dir)
    ∷ line (codes "ExecStart=" ++ exec_start opts org slot)
    ∷ line (codes "Restart=always")
    ∷ line (codes "RestartSec=3")
    ∷ line (codes "KillMode=mixed")
    ∷ line (codes "TimeoutStopSec=3600")
    ∷ unlines (if opts.din_d then ephemeral_hardening_din_d else ephemeral_hardening)
    ∷ write_directive (codes "Slice") opts.slice
    ∷ write_env_and_limits opts
    ∷ line []
    ∷ line (codes "[Install]")
    ∷ line (codes "WantedBy=multi-user.target")
    ∷ [])

unfoldable pub render_slice : Options → Text
render_slice opts =
    if text_eq opts.slice []
    then []
    else concat (
        line (codes "[Unit]")
        ∷ line (codes "Description=srm runner aggregate cgroup (managed by srm)")
        ∷ line (codes "[Slice]")
        ∷ when (not (text_eq opts.slice_memory_max []))
            (line (codes "MemoryMax=" ++ opts.slice_memory_max) ++ line (codes "MemorySwapMax=0"))
        ∷ [])
