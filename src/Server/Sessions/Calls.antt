-- ===== src/Server/Sessions/Calls.antt =====
-- The runner and every tool add rows of sessions only.
use openwrt_grafana_monitor.Prelude.{Bool, List, false, if◌then◌else◌, not, refl, true, ◌++◌, ◌≡◌}
use openwrt_grafana_monitor.Text.{Text}
use openwrt_grafana_monitor.Server.Sessions.{Leaves}
use openwrt_grafana_monitor.Server.Runner.{RunResult, run, stage_openwrt_payload}
use openwrt_grafana_monitor.Server.Session.{Event, Remote, Ssh, lift, ◌>>=◌, ◌>>◌}
use openwrt_grafana_monitor.Server.Sessions.Adds.{
  Adds, Adds-Quiet, Adds-bind, Adds-bind-lift, Adds-pure,
}
use openwrt_grafana_monitor.Server.Tools.{
  Call, after_stage, call, configure_syslog, diagnostic, list_routers, metrics_sample,
  monitoring_status, ran, restart_monitoring, run_repo_setup, runs, send_test_log, ssh_check,
  system_facts,
}
use openwrt_grafana_monitor.Policy.Commands.{
  CommandSpec, build_configure_syslog_command, build_diagnostic_command,
  build_metrics_sample_command, build_restart_monitoring_command, build_setup_command,
  build_test_log_command,
}
use openwrt_grafana_monitor.Policy.Output.{require_confirm}
use openwrt_grafana_monitor.Policy.Inventory.{Inventory}
use openwrt_grafana_monitor.Policy.Result.{Result}
use openwrt_grafana_monitor.Server.Settings.{Settings}
use openwrt_grafana_monitor.Server.Sessions.Runs.{archive-Adds, run-Adds}

module _ (cfg : Settings) (remote : Remote) (routers : Inventory) where
  if-Adds :
      {A : Type 0} (b : Bool) (m n : Ssh A)
      → Adds routers cfg.host_key_policy.policy remote m
      → Adds routers cfg.host_key_policy.policy remote n
      → Adds routers cfg.host_key_policy.policy remote (if b then m else n)
  if-Adds true m n h k = h
  if-Adds false m n h k = k

  stage-Adds :
      (name : Text)
      → Adds routers cfg.host_key_policy.policy remote
          (stage_openwrt_payload cfg remote routers name)
  unfolding stage_openwrt_payload
  stage-Adds name =
      if-Adds (not remote.payload_exists) _ _ (Adds-Quiet _ (λ t. (refl, tt)))
        (archive-Adds cfg remote routers name)

  runs-Adds :
      (name : Text) (spec : CommandSpec)
      → Adds routers cfg.host_key_policy.policy remote (runs cfg remote routers name spec)
  runs-Adds name spec =
      Adds-bind (run cfg remote routers name spec) _ (run-Adds cfg remote routers name spec)
        (λ r. Adds-pure (ran r))

  built-Adds :
      (name : Text) (built : Result CommandSpec)
      → Adds routers cfg.host_key_policy.policy remote (lift built >>= runs cfg remote routers name)
  built-Adds name built = Adds-bind-lift built _ (λ spec _. runs-Adds name spec)

  confirmed-Adds :
      (name : Text) (confirm : Bool) (built : Result CommandSpec)
      → Adds routers cfg.host_key_policy.policy remote (
          lift built >>= λ spec.
          lift (require_confirm confirm spec) >> runs cfg remote routers name spec)
  confirmed-Adds name confirm built =
      Adds-bind-lift built _
        λ spec _. Adds-bind-lift (require_confirm confirm spec) _ (λ _ _. runs-Adds name spec)

  after_stage-Adds :
      (name : Text) (spec : CommandSpec) (stage : RunResult)
      → Adds routers cfg.host_key_policy.policy remote
          (after_stage cfg remote routers name spec stage)
  after_stage-Adds name spec stage = if-Adds (not stage.ok) _ _ (Adds-pure _) (
      Adds-bind (run cfg remote routers name spec) _ (run-Adds cfg remote routers name spec)
        (λ s. Adds-pure _))

  call-Adds :
      (c : Call) → Adds routers cfg.host_key_policy.policy remote (call cfg remote routers c)
  unfolding call
  call-Adds list_routers = Adds-pure _
  call-Adds (ssh_check router) = runs-Adds router _
  call-Adds (system_facts router) = runs-Adds router _
  call-Adds (monitoring_status router) = runs-Adds router _
  call-Adds (metrics_sample router limit_lines) =
      built-Adds router (build_metrics_sample_command limit_lines)
  call-Adds (diagnostic router kind) = built-Adds router (build_diagnostic_command kind)
  call-Adds (send_test_log router confirm message tag) =
      confirmed-Adds router confirm (build_test_log_command message tag)
  call-Adds (restart_monitoring router target confirm) =
      confirmed-Adds router confirm (build_restart_monitoring_command target)
  call-Adds (configure_syslog router host port proto confirm) =
      confirmed-Adds router confirm (build_configure_syslog_command host port proto)
  call-Adds (run_repo_setup router host confirm profile interface port proto) =
      Adds-bind-lift
        (build_setup_command host profile interface port proto cfg.setup_timeout_seconds) _
        λ spec _. Adds-bind-lift (require_confirm confirm spec) _ λ _ _.
          Adds-bind (stage_openwrt_payload cfg remote routers router) _ (stage-Adds router)
            (after_stage-Adds router spec)

  -- Whatever a tool is called with and whatever the network answers, what it does is a row of
  -- sessions with routers of the inventory, each by a client that treats unknown keys as the
  -- configured policy says: a connection that did not open is followed by nothing, and one that
  -- opened is used for one command and closed. Only where the call does not come back, the last
  -- session is still open, and the command on it is one that never ends.
  pub call-Sessions :
      (c : Call) (t : List Event)
      → (new : List Event) × ((call cfg remote routers c t).1 ≡ t ++ new)
        × Leaves routers cfg.host_key_policy.policy remote (call cfg remote routers c t).0 t new
  call-Sessions c t = (call-Adds c).at t
