-- ===== src/Dashboard/Operations/LogsFirst.antt =====
-- Panels of the tab "Logs & Security" of `build_dashboard`, scripts/build_openwrt_operations_dashboard.py.
use openwrt_grafana_monitor.Prelude.{List, [], none, pos, some, ◌++◌, ◌∷◌}
use openwrt_grafana_monitor.Text.{codes}
use openwrt_grafana_monitor.Dashboard.Wifi.{cron_cmd_filter}
use openwrt_grafana_monitor.Dashboard.Styles.{loki_filter}
use openwrt_grafana_monitor.Dashboard.Panels.Values.{loki_stat}
use openwrt_grafana_monitor.Dashboard.Builder.{text_panel}
use openwrt_grafana_monitor.Dashboard.Assemble.{Placement, on_grid}

unfoldable pub logs_panels_first : List Placement
logs_panels_first =
    on_grid
      (some (
        text_panel (pos 500) [] (
          codes
            "## Logs & Security\nSummary stats use scalar LogQL aggregation. BusyBox cron command-start records can carry error severity while the command exits normally; those records are excluded from error/warning summaries and explained here.")))
      0 0 24 3
    ∷ on_grid
        (loki_stat (pos 501) (codes "Errors (1h)")
          (codes "sum(count_over_time({"
            ++ (loki_filter
                ++ (codes ", message_severity=~\"error|err|crit|critical|alert|emergency|emerg\"} "
                    ++ (cron_cmd_filter ++ codes " [1h])) or vector(0)"))))
          (codes
            "Syslog severity error/critical lines excluding normal BusyBox cron command-start records.")
          (codes "ok_bad") none)
        0 3 4 4
    ∷ on_grid
        (loki_stat (pos 502) (codes "Warnings (1h)")
          (codes "sum(count_over_time({"
            ++ (loki_filter
                ++ (codes ", message_severity=~\"warning|warn\"} "
                    ++ (cron_cmd_filter ++ codes " [1h])) or vector(0)"))))
          (codes "Syslog warning lines excluding cron command-start noise.") (codes "ok_bad") none)
        4 3 4 4
    ∷ on_grid
        (loki_stat (pos 503) (codes "DHCP Events (1h)")
          (codes "sum(count_over_time({"
            ++ (loki_filter ++ codes "} |~ \"DHCP|dhcp|dnsmasq|odhcpd\" [1h])) or vector(0)"))
          (codes "DHCP/dnsmasq/odhcpd log events.") (codes "neutral") none)
        8 3 4 4
    ∷ on_grid
        (loki_stat (pos 504) (codes "Firewall Drops (1h)")
          (codes "sum(count_over_time({"
            ++ (loki_filter
                ++ codes "} |~ \"\\\\b(DROP|REJECT|drop|reject)\\\\b\" [1h])) or vector(0)"))
          (codes "Firewall drop/reject events when firewall logging is enabled.") (codes "ok_bad")
          none)
        12 3 4 4
    ∷ on_grid
        (loki_stat (pos 505) (codes "SSH Failures (1h)")
          (codes "sum(count_over_time({"
            ++ (loki_filter
                ++ codes
                    "} |~ \"(Failed password|failed password|login failed|Bad password|Invalid user)\" [1h])) or vector(0)"))
          (codes
            "Precise SSH authentication failure patterns; does not match ordinary 'fails: Exited normally' text.")
          (codes "ok_bad") none)
        16 3 4 4
    ∷ on_grid
        (loki_stat (pos 506) (codes "Total Log Lines (1h)")
          (codes "sum(count_over_time({" ++ (loki_filter ++ codes "} [1h])) or vector(0)"))
          (codes "One aggregate count across the Loki stream.") (codes "neutral") none)
        20 3 4 4
    ∷ []
