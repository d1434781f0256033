-- ===== src/Server/Confirm.antt =====
-- The tools that change a router do nothing without the confirmation.
use openwrt_grafana_monitor.Prelude.{
  Bool, List, Option, arith, false, none, not, refl, some, true, ℤ, ◌≡◌,
}
use openwrt_grafana_monitor.Text.{Text}
use openwrt_grafana_monitor.Policy.Result.{Result, confirm_required, policy}
use openwrt_grafana_monitor.Policy.Commands.{
  CommandSpec, build_configure_syslog_command, build_restart_monitoring_command,
  build_setup_command, build_test_log_command, restart_spec,
}
use openwrt_grafana_monitor.Server.Session.{
  Event, Exception, Outcome, Remote, Ssh, lift, raised, refused, ◌>>=◌, ◌>>◌,
}
use openwrt_grafana_monitor.Policy.Inventory.{Inventory}
use openwrt_grafana_monitor.Policy.Output.{require_confirm}
use openwrt_grafana_monitor.Server.Settings.{Settings}
use openwrt_grafana_monitor.Server.Tools.{
  Call, call, configure_syslog, restart_monitoring, run_repo_setup, send_test_log,
}

-- A call that would change a router, without `confirm=true`.
abbrev pub unconfirmed : Call → Bool
unconfirmed (send_test_log router confirm message tag) = not confirm
unconfirmed (restart_monitoring router target confirm) = not confirm
unconfirmed (configure_syslog router host port proto confirm) = not confirm
unconfirmed (run_repo_setup router host confirm profile interface port proto) = not confirm
unconfirmed _ = false

-- The builders of these calls make specifications that are marked as changing the router.
abbrev Mutates : Result CommandSpec → Type 0
Mutates built = (spec : CommandSpec) → built ≡ Result.ok spec → spec.mutating ≡ true

test_log-Mutates : (message tag : Text) → Mutates (build_test_log_command message tag)
unfolding build_test_log_command
test_log-Mutates message tag spec h = ground arith

restart_spec-Mutates : (target : Text) (found : Option Text) → Mutates (restart_spec target found)
restart_spec-Mutates target none spec h = cc
restart_spec-Mutates target (some command) spec h = ground arith

restart-Mutates : (target : Text) → Mutates (build_restart_monitoring_command target)
unfolding build_restart_monitoring_command
restart-Mutates target = restart_spec-Mutates target _

configure-Mutates :
    (host : Text) (port : ℤ) (proto : Text)
    → Mutates (build_configure_syslog_command host port proto)
unfolding build_configure_syslog_command
configure-Mutates host port proto spec h = ground arith

setup-Mutates :
    (host profile interface : Text) (port : ℤ) (proto : Text) (timeout : ℤ)
    → Mutates (build_setup_command host profile interface port proto timeout)
unfolding build_setup_command
setup-Mutates host profile interface port proto timeout spec h = ground arith

-- What the outside sees of a refused action: it raised, and no event was added.
abbrev pub Refused {ℓ} : {A : Type ℓ} → List Event → Outcome A × List Event → Type ℓ
Refused t end = (e : Exception) × (end ≡ (raised e, t))

guarded :
    {A : Type 0} (built : Result CommandSpec) (rest : CommandSpec → Ssh A) (t : List Event)
    → Mutates built
    → Refused t ((lift built >>= λ spec. lift (require_confirm false spec) >> rest spec) t)
unfolding require_confirm
guarded (Result.err e) rest t h = (refused e, refl)
guarded (Result.ok spec) rest t h = rw (h spec refl) (refused (policy confirm_required), refl)

-- A call that would change a router, made without `confirm=true`, raises, and nothing is done: no
-- connection is opened, no command run, no payload sent.
pub call-unconfirmed :
    (cfg : Settings) (remote : Remote) (routers : Inventory) (c : Call) (t : List Event)
    → unconfirmed c ≡ true
    → Refused t (call cfg remote routers c t)
unfolding call
call-unconfirmed cfg remote routers (send_test_log router false message tag) t h =
    guarded (build_test_log_command message tag) _ t (test_log-Mutates message tag)
call-unconfirmed cfg remote routers (restart_monitoring router target false) t h =
    guarded (build_restart_monitoring_command target) _ t (restart-Mutates target)
call-unconfirmed cfg remote routers (configure_syslog router host port proto false) t h =
    guarded (build_configure_syslog_command host port proto) _ t (configure-Mutates host port proto)
call-unconfirmed cfg remote routers (run_repo_setup router host false profile interface port proto)
      t h =
    guarded (build_setup_command host profile interface port proto cfg.setup_timeout_seconds) _ t
      (setup-Mutates host profile interface port proto cfg.setup_timeout_seconds)
call-unconfirmed cfg remote routers _ t h = cc
