-- ===== src/Policy/Commands.antt =====
-- `CommandSpec` and the builders of commands of mcp_server/core.py.
mod Constants
pub mod Reading
pub mod Setup
unfoldable pub use Constants.*
use openwrt_grafana_monitor.Prelude.{
  Bool, List, Option, [], above, below, false, length, ltb, none, not, pos, some, true, ℕ, ℤ, ◌++◌,
  ◌||◌, ◌∷◌,
}
use openwrt_grafana_monitor.Text.{
  Text, codes, elem, join, lookup, lower, or_else, show_ℕ, show_ℤ, strip,
}
use openwrt_grafana_monitor.Policy.Result.{
  Result, diagnostic_invalid, err, limit_lines_out_of_range, message_too_long, ok, policy,
  proto_invalid, refuse_if, restart_invalid, setup_timeout_not_positive, tag_invalid, ◌>>=◌, ◌>>◌,
}
use openwrt_grafana_monitor.Policy.Validate.{
  allowed_syslog_protocols, full_match, is_label_char, normalize_profile, validate_host,
  validate_interface, validate_port,
}
use openwrt_grafana_monitor.Shell.{quote}

pub record CommandSpec : Type 0 where
  pub command : Text
  pub timeout_seconds : ℤ
  pub mutating : Bool
  pub description : Text
  pub timeout_message : Text

-- The defaults of the fields, for a command that reads.
abbrev pub read_only : Text → Text → CommandSpec
read_only command description = record {
  command = command;
  timeout_seconds = pos 15;
  mutating = false;
  description = description;
  timeout_message = [];
}

abbrev pub build_system_facts_command : CommandSpec
build_system_facts_command =
    read_only
      (codes
        "printf 'OpenWrt release\\n'; cat /etc/openwrt_release 2>/dev/null; printf '\\nKernel\\n'; uname -a; printf '\\nUptime\\n'; uptime; printf '\\nBoard\\n'; cat /tmp/sysinfo/model 2>/dev/null; cat /tmp/sysinfo/board_name 2>/dev/null; ubus call system board 2>/dev/null | head -c 4096")
      (codes "Read OpenWrt release, kernel, uptime, and board facts.")

abbrev pub build_monitoring_status_command : CommandSpec
build_monitoring_status_command =
    read_only
      (codes
          "printf 'Exporter service\\n'; /etc/init.d/prometheus-node-exporter-lua status 2>&1; printf '\\nExporter UCI\\n'; uci -q show prometheus-node-exporter-lua; printf '\\nSyslog UCI\\n'; uci -q show system | grep 'log_'; printf '\\nCron service\\n'; /etc/init.d/cron status 2>&1; printf '\\nMetrics health sample\\n'; "
        ++ (metrics_url_command
            ++ codes
                "; wget -qO- \"$METRICS_URL\" 2>/dev/null | grep -E '^(node_openwrt_info|node_scrape_collector_success|openwrt_.*collector_available)' | head -80"))
      (codes "Read monitoring service, UCI, cron, and metrics status.")

unfoldable pub build_metrics_sample_command : ℤ → Result CommandSpec
unfolding show_ℤ
build_metrics_sample_command limit_lines = do
  refuse_if (below limit_lines 1 || above limit_lines 500) limit_lines_out_of_range
  ok (
      read_only
        (metrics_url_command
          ++ (codes "; wget -qO- \"$METRICS_URL\" 2>/dev/null | sed -n '1,"
              ++ (show_ℤ limit_lines ++ codes "p'")))
        (codes "Read a bounded local exporter metrics sample."))

abbrev diagnostic_spec : Text → Option Text → Result CommandSpec
diagnostic_spec kind none = err (policy (diagnostic_invalid kind))
diagnostic_spec kind (some command) =
    ok (read_only command (codes "Run read-only diagnostic " ++ (kind ++ codes ".")))

unfoldable pub build_diagnostic_command : Text → Result CommandSpec
unfolding lookup
build_diagnostic_command kind = diagnostic_spec kind (lookup kind diagnostic_commands)

abbrev pub default_message : Text
default_message = codes "test message from OpenWrt SSH MCP"

abbrev pub default_tag : Text
default_tag = codes "openwrt-ssh-mcp"

abbrev pub test_log_spec : Text → Text → CommandSpec
test_log_spec tag message = record {
  command = codes "logger -t " ++ (quote tag ++ (codes " " ++ quote message));
  timeout_seconds = pos 15;
  mutating = true;
  description = codes "Send a bounded test log message through OpenWrt logd.";
  timeout_message = [];
}

unfoldable pub build_test_log_command : Text → Text → Result CommandSpec
unfolding strip or_else full_match is_label_char quote
build_test_log_command raw_message raw_tag = do
  let message = strip (or_else raw_message default_message)
  let tag = strip (or_else raw_tag default_tag)
  refuse_if (ltb 240 (length message)) message_too_long
  refuse_if (not (full_match is_label_char tag)) tag_invalid
  ok (test_log_spec tag message)

abbrev pub restart_spec : Text → Option Text → Result CommandSpec
restart_spec target none = err (policy (restart_invalid target))
restart_spec target (some command) = ok (record {
  command = command;
  timeout_seconds = pos 30;
  mutating = true;
  description = codes "Restart monitoring service target " ++ (target ++ codes ".");
  timeout_message = [];
})

unfoldable pub build_restart_monitoring_command : Text → Result CommandSpec
unfolding lookup
build_restart_monitoring_command target =
    restart_spec target (lookup target monitoring_service_commands)

abbrev configure_text : Text → ℕ → Text → Text
configure_text host port proto =
    codes "uci set system.@system[0].log_ip="
    ++ (quote host
        ++ (codes "; uci set system.@system[0].log_port="
            ++ (quote (show_ℕ port)
                ++ (codes "; uci set system.@system[0].log_proto="
                    ++ (quote proto
                        ++ codes
                            "; uci commit system; /etc/init.d/log restart; uci -q show system | grep 'log_'")))))

abbrev pub configure_spec : Text → ℕ → Text → CommandSpec
configure_spec host port proto = record {
  command = configure_text host port proto;
  timeout_seconds = pos 30;
  mutating = true;
  description = codes "Configure OpenWrt remote syslog and restart logd.";
  timeout_message = [];
}

unfoldable pub build_configure_syslog_command : Text → ℤ → Text → Result CommandSpec
build_configure_syslog_command raw_host raw_port raw_proto = do
  host ← validate_host (some raw_host)
  port ← validate_port raw_port
  let proto = strip (lower raw_proto)
  refuse_if (not (elem proto allowed_syslog_protocols)) proto_invalid
  ok (configure_spec host port proto)

-- `NAME=` and the quoted value
abbrev pub assignment : Text → Text → Text
assignment name value = name ++ (b'=' ∷ quote value)

abbrev pub env_parts : Text → ℕ → Text → List Text
env_parts profile port proto =
    assignment (codes "OPENWRT_MONITOR_PROFILE") profile
    ∷ assignment (codes "SYSLOG_PORT") (show_ℕ port)
    ∷ assignment (codes "SYSLOG_PROTO") proto
    ∷ []

-- The part for `traffic_lan_interface`, which is added where the argument is not empty.
unfoldable pub interface_parts : Text → Result (List Text)
unfolding validate_interface quote
interface_parts [] = ok []
interface_parts (c ∷ s) = validate_interface (c ∷ s) >>= λ value.
    ok (assignment (codes "TRAFFIC_LAN_INTERFACE") value ∷ [])

abbrev pub setup_text : List Text → Text → Text
setup_text parts host = join (codes " ") parts ++ (codes " sh /tmp/openwrt/setup.sh " ++ quote host)

abbrev pub setup_spec : List Text → Text → ℤ → CommandSpec
setup_spec parts host timeout = record {
  command = setup_text parts host;
  timeout_seconds = timeout;
  mutating = true;
  description = codes "Run this repo's OpenWrt setup script with validated environment.";
  timeout_message = setup_timeout_message;
}

unfoldable pub build_setup_command : Text → Text → Text → ℤ → Text → ℤ → Result CommandSpec
build_setup_command raw_host raw_profile traffic_lan_interface raw_port raw_proto timeout = do
  host ← validate_host (some raw_host)
  port ← validate_port raw_port
  refuse_if (below timeout 1) setup_timeout_not_positive
  let proto = strip (lower raw_proto)
  refuse_if (not (elem proto allowed_syslog_protocols)) proto_invalid
  profile ← normalize_profile raw_profile
  extra ← interface_parts traffic_lan_interface
  ok (setup_spec (env_parts profile port proto ++ extra) host timeout)
