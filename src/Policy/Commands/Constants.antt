-- ===== src/Policy/Commands/Constants.antt =====
-- The shell commands of mcp_server/core.py that take no argument.
use openwrt_grafana_monitor.Prelude.{List, [], ◌++◌, ◌∷◌}
use openwrt_grafana_monitor.Text.{Text, codes}

abbrev pub setup_timeout_message : Text
setup_timeout_message =
    codes
      "openwrt_run_repo_setup timed out while running setup.sh; the router may be partially configured. Run openwrt_monitoring_status as the next read-only check before rerunning setup or making additional router changes."

abbrev pub metrics_url_command : Text
metrics_url_command =
    codes
      "LAN_IP=$(uci -q get network.lan.ipaddr 2>/dev/null); LAN_IP=${LAN_IP%%/*}; LAN_IP=${LAN_IP:-127.0.0.1}; METRICS_URL=http://$LAN_IP:9100/metrics"

abbrev pub safe_wifi_status_command : Text
safe_wifi_status_command =
    codes
      "wifi status 2>/dev/null | awk '/\"(key|password|passwd|psk|sae_password|wps_pin)\"[[:space:]]*:/ { sub(/:.*/, \": \\\"[redacted]\\\",\"); print; next } { print }' | head -c 12000"

abbrev pub conntrack_sources_command : Text
conntrack_sources_command =
    codes
      "printf 'conntrack_cli='; if command -v conntrack >/dev/null 2>&1; then printf 'present\\n'; else printf 'missing\\n'; fi; printf 'conntrack_cli_rows='; if command -v conntrack >/dev/null 2>&1; then conntrack -L 2>/dev/null | wc -l; else printf '0\\n'; fi; for f in /proc/net/nf_conntrack /proc/net/ip_conntrack; do printf '%s=' \"$f\"; if [ -r \"$f\" ]; then wc -l < \"$f\" 2>/dev/null; else printf 'unreadable\\n'; fi; done; printf 'getHostHints_bytes='; ubus call luci-rpc getHostHints 2>/dev/null | wc -c; printf 'wireless_status_bytes='; ubus call network.wireless status 2>/dev/null | wc -c"

abbrev pub inode_sources_command : Text
inode_sources_command =
    codes
      "printf 'df_iP='; if df -iP / >/dev/null 2>&1; then printf 'present\\n'; else printf 'unavailable\\n'; fi; printf 'stat_bin='; if command -v stat >/dev/null 2>&1; then printf 'present\\n'; else printf 'missing\\n'; fi; printf 'stat_f_tmp='; if command -v stat >/dev/null 2>&1; then stat -f -c '%c %d' /tmp 2>/dev/null || printf 'unavailable\\n'; else printf 'unavailable\\n'; fi; printf 'mount_overlay='; [ -e /overlay ] && printf 'present\\n' || printf 'missing\\n'; printf 'mount_tmp='; [ -e /tmp ] && printf 'present\\n' || printf 'missing\\n'"

abbrev pub diagnostic_commands : List (Text × Text)
diagnostic_commands =
    (codes "routes", codes "ip route; ip -6 route 2>/dev/null | head -80")
    ∷ (
      codes "interfaces",
      codes
          "ip -brief addr 2>/dev/null || ip addr; printf '\\n/proc/net/dev\\n'; cat /proc/net/dev",
    )
    ∷ (codes "wifi", safe_wifi_status_command ++ codes "; printf '\\n'; iw dev 2>/dev/null")
    ∷ (
      codes "dhcp",
      codes
          "uci -q show dhcp; printf '\\nRecent DHCP logs\\n'; logread 2>/dev/null | grep -E 'dnsmasq|odhcpd|DHCP' | tail -80",
    )
    ∷ (
      codes "firewall_counters",
      codes
          "nft list counters 2>/dev/null | head -200; printf '\\nRuleset counters\\n'; nft list ruleset 2>/dev/null | grep -E 'counter|chain|table' | head -200",
    )
    ∷ (
      codes "collector_success",
      metrics_url_command
          ++ codes
              "; wget -qO- \"$METRICS_URL\" 2>/dev/null | grep '^node_scrape_collector_success' | head -120",
    )
    ∷ (codes "conntrack_sources", conntrack_sources_command)
    ∷ (
      codes "disk",
      codes "df -h; printf '\\nInodes\\n'; df -i 2>/dev/null; printf '\\nMounts\\n'; mount",
    )
    ∷ (codes "inode_sources", inode_sources_command)
    ∷ (
      codes "processes",
      codes
          "ps; printf '\\nListening sockets\\n'; netstat -lntup 2>/dev/null || ss -lntup 2>/dev/null",
    )
    ∷ []

abbrev pub monitoring_service_commands : List (Text × Text)
monitoring_service_commands =
    (codes "exporter", codes "/etc/init.d/prometheus-node-exporter-lua restart")
    ∷ (codes "log", codes "/etc/init.d/log restart")
    ∷ (codes "cron", codes "/etc/init.d/cron restart")
    ∷ (
      codes "all",
      codes
          "/etc/init.d/prometheus-node-exporter-lua restart; /etc/init.d/log restart; /etc/init.d/cron restart",
    )
    ∷ []
