-- ===== src/Dashboard/Operations/LogsSecond.antt =====
-- Panels of the tab "Logs & Security" of `build_dashboard`, scripts/build_openwrt_operations_dashboard.py.
use openwrt_grafana_monitor.Prelude.{List, [], false, none, pos, some, ◌++◌, ◌∷◌}
use openwrt_grafana_monitor.Text.{codes}
use openwrt_grafana_monitor.Dashboard.Panels.Tables.{logs_panel}
use openwrt_grafana_monitor.Dashboard.Wifi.{cron_cmd_filter}
use openwrt_grafana_monitor.Dashboard.Styles.{loki_filter}
use openwrt_grafana_monitor.Dashboard.Queries.{loki_query}
use openwrt_grafana_monitor.Dashboard.Panels.Series.{timeseries}
use openwrt_grafana_monitor.Dashboard.Assemble.{Placement, on_grid}

unfoldable pub logs_panels_second : List Placement
logs_panels_second =
    on_grid
      (some (
        timeseries (pos 507) (codes "Log Rate by Severity")
          ((loki_query
              (codes "sum by(message_severity) (rate({"
                ++ (loki_filter ++ (codes "} " ++ (cron_cmd_filter ++ codes " [$__auto]))"))))
              (codes "A") (codes "range"))
            ∷ [])
          (codes "none")
          (codes
            "Rate of non-cron syslog lines grouped by Alloy syslog severity label. Loki metric queries use Grafana's $__auto interval.")
          false (pos 15) (codes "linear") none none none (codes "normal") none))
      0 7 24 7
    ∷ on_grid
        (some (
          logs_panel (pos 508) (codes "Recent System Logs")
            (codes "{" ++ (loki_filter ++ codes "}"))
            (codes
              "Bounded raw OpenWrt syslog stream. Use Explore for unrestricted investigation.")))
        0 14 24 10
    ∷ on_grid
        (some (
          logs_panel (pos 509) (codes "DHCP / DNSMasq / odhcpd")
            (codes "{" ++ (loki_filter ++ codes "} |~ \"DHCP|dhcp|dnsmasq|odhcpd\""))
            (codes "Lease assignments, renewals, releases, and DHCPv6/RA activity.")))
        0 24 12 6
    ∷ on_grid
        (some (
          logs_panel (pos 510) (codes "Firewall DROP / REJECT")
            (codes "{" ++ (loki_filter ++ codes "} |~ \"\\\\b(DROP|REJECT|drop|reject)\\\\b\""))
            (codes "Firewall events. Empty is normal unless logging is enabled.")))
        12 24 12 6
    ∷ on_grid
        (some (
          logs_panel (pos 511) (codes "Kernel / Driver")
            (codes "{"
              ++ (loki_filter
                  ++ codes
                      "} |~ \"kernel|Kernel|netifd|device|link is|entered forwarding|left promiscuous\""))
            (codes "Kernel, netifd, and link-state events.")))
        0 30 12 6
    ∷ on_grid
        (some (
          logs_panel (pos 512) (codes "SSH Security Events")
            (codes "{"
              ++ (loki_filter
                  ++ codes
                      "} |~ \"(Failed password|failed password|login failed|Bad password|Invalid user|Connection closed by authenticating user)\""))
            (codes
              "SSH authentication and pre-auth close events. Normal '0 fails: Exited normally' cron text is intentionally not classified as failure.")))
        12 30 12 6
    ∷ []
