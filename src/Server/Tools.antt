-- ===== src/Server/Tools.antt =====
-- The tools of mcp_server/server.py.
use openwrt_grafana_monitor.Prelude.{
  Bool, List, Option, false, if◌then◌else◌, map, none, not, some, ℤ, ◌&&◌,
}
use openwrt_grafana_monitor.Text.{Text, codes}
use openwrt_grafana_monitor.Policy.Commands.{
  CommandSpec, build_configure_syslog_command, build_diagnostic_command,
  build_metrics_sample_command, build_monitoring_status_command, build_restart_monitoring_command,
  build_setup_command, build_system_facts_command, build_test_log_command, read_only,
}
use openwrt_grafana_monitor.Policy.Inventory.{Inventory, Router}
use openwrt_grafana_monitor.Policy.Output.{require_confirm}
use openwrt_grafana_monitor.Server.Settings.{Settings}
use openwrt_grafana_monitor.Server.Session.{Remote, Ssh, lift, pure, ◌>>=◌, ◌>>◌}
use openwrt_grafana_monitor.Server.Runner.{RunResult, run, stage_openwrt_payload}

pub record SetupResult : Type 0 where
  pub stage : RunResult
  pub setup : Option RunResult
  pub ok : Bool

pub data Reply : Type 0 where
  listed : List Router → Reply
  ran : RunResult → Reply
  set_up : SetupResult → Reply

-- A call of a tool, with its arguments.
pub data Call : Type 0 where
  list_routers : Call
  ssh_check system_facts monitoring_status : (router : Text) → Call
  metrics_sample : (router : Text) (limit_lines : ℤ) → Call
  diagnostic : (router kind : Text) → Call
  send_test_log : (router : Text) (confirm : Bool) (message tag : Text) → Call
  restart_monitoring : (router target : Text) (confirm : Bool) → Call
  configure_syslog :
      (router monitoring_host : Text) (port : ℤ) (proto : Text) (confirm : Bool) → Call
  run_repo_setup :
      (router monitoring_host : Text) (confirm : Bool) (profile interface : Text) (port : ℤ)
      (proto : Text)
      → Call

abbrev pub check_spec : CommandSpec
check_spec =
    read_only (codes "printf 'ssh_ok=1\\nhostname='; hostname") (codes "Verify SSH connectivity.")

module _ (cfg : Settings) (remote : Remote) (routers : Inventory) where
  abbrev pub runs : Text → CommandSpec → Ssh Reply
  runs router spec = run cfg remote routers router spec >>= λ r. pure (ran r)

  abbrev pub after_stage : Text → CommandSpec → RunResult → Ssh Reply
  after_stage router spec stage =
      if not stage.ok
      then pure (set_up (record { stage = stage; setup = none; ok = false }))
      else do
        setup ← run cfg remote routers router spec
        pure (set_up (record { stage = stage; setup = some setup; ok = stage.ok && setup.ok }))

  unfoldable pub call : Call → Ssh Reply
  call list_routers = pure (listed (map (λ r. r.1) routers))
  call (ssh_check router) = runs router check_spec
  call (system_facts router) = runs router build_system_facts_command
  call (monitoring_status router) = runs router build_monitoring_status_command
  call (metrics_sample router limit_lines) = do
    spec ← lift (build_metrics_sample_command limit_lines)
    runs router spec
  call (diagnostic router kind) = do spec ← lift (build_diagnostic_command kind); runs router spec
  call (send_test_log router confirm message tag) = do
    spec ← lift (build_test_log_command message tag)
    lift (require_confirm confirm spec)
    runs router spec
  call (restart_monitoring router target confirm) = do
    spec ← lift (build_restart_monitoring_command target)
    lift (require_confirm confirm spec)
    runs router spec
  call (configure_syslog router monitoring_host port proto confirm) = do
    spec ← lift (build_configure_syslog_command monitoring_host port proto)
    lift (require_confirm confirm spec)
    runs router spec
  call (run_repo_setup router monitoring_host confirm profile interface port proto) = do
    spec ←
        lift (
          build_setup_command monitoring_host profile interface port proto
            cfg.setup_timeout_seconds)
    lift (require_confirm confirm spec)
    stage ← stage_openwrt_payload cfg remote routers router
    after_stage router spec stage
