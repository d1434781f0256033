-- ===== src/Server/Examples.antt =====
-- The theorems on the server at concrete inputs.
use openwrt_grafana_monitor.Prelude.{
  List, Option, [], arith, false, if◌then◌else◌, inl, none, pos, refl, some, true, ◌++◌, ◌↔◌, ◌∷◌,
  ◌≡◌,
}
use openwrt_grafana_monitor.Text.{Text, codes, contains, elem, has_char, or_empty, strip, text_eq}
use openwrt_grafana_monitor.Server.Middleware.{
  Admitted, Request, bearer, dispatch, dispatch-Admitted, forwarded, request_host,
}
use openwrt_grafana_monitor.Server.Outcomes.{Reports, begun, run-Reports, status}
use openwrt_grafana_monitor.Server.Tools.{
  Call, call, check_spec, ran, restart_monitoring, run_repo_setup, ssh_check,
}
use openwrt_grafana_monitor.Server.Replies.{IsCleanReply, call-IsClean}
use openwrt_grafana_monitor.Server.Session.{
  Event, Remote, closed, finished, opened, polled, returned,
}
use openwrt_grafana_monitor.Policy.Inventory.{Inventory, Router, resolve_router}
use openwrt_grafana_monitor.Server.Runner.{RunResult, no_extra, result_at, run}
use openwrt_grafana_monitor.Policy.Output.{redact, truncate_output}
use openwrt_grafana_monitor.Policy.HostKeys.{reject_policy, resolve_host_key_policy}
use openwrt_grafana_monitor.Server.Settings.{
  IsSecured, Settings, csv_set, from_env, from_env-IsSecured, int_env,
}
use openwrt_grafana_monitor.Policy.Validate.{resolve_setup_timeout_seconds}
use openwrt_grafana_monitor.Server.Confirm.{Refused, call-unconfirmed}
use openwrt_grafana_monitor.Server.Sessions.{Leaves}
use openwrt_grafana_monitor.Server.Secrets.{IsClean, IsSecret, run-IsClean}
use openwrt_grafana_monitor.Server.Sessions.Calls.{call-Sessions}

abbrev example_settings : Settings
example_settings = record {
  routers_raw = codes "openwrt-main=192.168.0.1,openwrt-new=192.168.0.2";
  username = codes "root";
  password = codes "hunter22";
  token = codes "0123456789abcdef";
  allowed_hosts = codes "127.0.0.1" ∷ codes "localhost" ∷ [];
  allowed_origins = [];
  ssh_timeout_seconds = pos 15;
  setup_timeout_seconds = pos 600;
  output_limit = pos 12000;
  repo_openwrt_dir = codes "/app/openwrt";
  host_key_policy = record {
    policy = reject_policy;
    insecure = false;
    known_hosts_path = codes "/app/known_hosts";
  };
}

abbrev example_env : Text → Option Text
example_env name =
    if text_eq name (codes "OPENWRT_SSH_USERNAME")
    then some (codes " root ")
    else if text_eq name (codes "OPENWRT_SSH_PASSWORD")
    then some (codes "hunter22")
    else if text_eq name (codes "OPENWRT_MCP_TOKEN")
    then some (codes "0123456789abcdef")
    else none

from_env_example : IsSecured example_settings
unfolding csv_set resolve_host_key_policy from_env codes text_eq strip int_env
    resolve_setup_timeout_seconds or_empty
from_env_example = from_env-IsSecured example_env example_settings refl

abbrev example_request : Request
example_request = record {
  path = codes "/mcp";
  header = λ name.
      if text_eq name (codes "host")
      then some (codes "localhost:8765")
      else if text_eq name (codes "authorization")
      then some (codes "Bearer 0123456789abcdef")
      else none;
}

dispatch_test : dispatch example_settings example_request ≡ forwarded
unfolding dispatch codes text_eq or_empty request_host bearer elem
dispatch_test = refl

dispatch_example :
    (dispatch example_settings example_request ≡ forwarded)
    ↔ Admitted example_settings example_request
dispatch_example = dispatch-Admitted example_settings example_request

abbrev example_routers : Inventory
example_routers =
    (codes "a", record { name = codes "a"; host = codes "192.168.0.1"; port = 22 }) ∷ []

abbrev example_remote : Remote
example_remote = record {
  connect = λ t. opened;
  execute = λ t. finished (pos 0) (codes "pw hunter22") [];
  transfer = λ t. polled [] [] [] (pos 0);
  elapsed = λ t. 5;
  decode = λ bytes. bytes;
  known_hosts_exists = true;
  payload_exists = true;
  archive = 1 ∷ 2 ∷ [];
}

abbrev unconfirmed_restart : Call
unconfirmed_restart = restart_monitoring (codes "a") (codes "all") false

call_unconfirmed_example :
    Refused [] (call example_settings example_remote example_routers unconfirmed_restart [])
call_unconfirmed_example =
    call-unconfirmed example_settings example_remote example_routers unconfirmed_restart [] refl

abbrev confirmed_setup : Call
confirmed_setup =
    run_repo_setup (codes "a") (codes "192.168.0.5") true (codes "core") [] (pos 1514) (codes "udp")

call_sessions_example :
    (new : List Event) × ((call example_settings example_remote example_routers confirmed_setup
        []).1
      ≡ [] ++ new)
    × Leaves example_routers example_settings.host_key_policy.policy example_remote
        (call example_settings example_remote example_routers confirmed_setup []).0
        []
        new
call_sessions_example =
    call-Sessions example_settings example_remote example_routers confirmed_setup []

abbrev check_result : RunResult
check_result = record {
  router = codes "a";
  description = codes "Verify SSH connectivity.";
  exit_code = pos 0;
  ok = true;
  stdout = codes "pw [redacted]";
  stderr = [];
  stdout_truncated = false;
  stderr_truncated = false;
  duration_ms = 5;
  extra = no_extra;
}

password-IsSecret : IsSecret example_settings (codes "hunter22")
unfolding codes has_char contains
password-IsSecret = record {
  opaque = record {
    long = refl;
    no_open = refl;
    no_close = refl;
    no_line = refl;
    outside = refl;
    not_truncated = refl;
  };
  own = inl refl;
}

run_example : IsClean (codes "hunter22") (codes "a") check_spec check_result
unfolding run codes redact truncate_output resolve_router result_at
run_example =
    run-IsClean example_settings example_remote example_routers (codes "hunter22") password-IsSecret
      (codes "a") check_spec [] check_result refl

call_clean_example :
    IsCleanReply example_settings example_remote example_routers
      (codes "hunter22")
      (ssh_check (codes "a"))
      (ran check_result)
unfolding call run codes redact truncate_output resolve_router result_at
call_clean_example =
    call-IsClean example_settings example_remote example_routers (codes "hunter22")
      password-IsSecret (ssh_check (codes "a")) [] (ran check_result) refl

abbrev example_router : Router
example_router = record { name = codes "a"; host = codes "192.168.0.1"; port = 22 }

run_result_example :
    (r : RunResult) × (run example_settings example_remote example_routers (codes "a") check_spec []
      ≡ (
        returned r,
        begun example_settings example_remote example_routers check_spec [] example_router
            ++ closed ∷ [],
      ))
    × Reports (pos 0) r
unfolding codes resolve_router
run_result_example =
    run-Reports example_settings example_remote example_routers 12000 refl (omega arith) (codes "a")
      check_spec [] example_router (pos 0) refl refl (status (pos 0) (codes "pw hunter22") [])
