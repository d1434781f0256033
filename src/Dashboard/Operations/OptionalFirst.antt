-- ===== src/Dashboard/Operations/OptionalFirst.antt =====
-- Panels of the tab "Optional & Diagnostics" of `build_dashboard`, scripts/build_openwrt_operations_dashboard.py.
use openwrt_grafana_monitor.Prelude.{List, [], false, none, pos, some, true, ◌++◌, ◌∷◌}
use openwrt_grafana_monitor.Text.{codes}
use openwrt_grafana_monitor.Dashboard.Panels.Series.{timeseries}
use openwrt_grafana_monitor.Dashboard.Styles.Mappings.{boolean_ok_mappings}
use openwrt_grafana_monitor.Dashboard.Json.{dict, list, lit, ◌⇒◌}
use openwrt_grafana_monitor.Dashboard.Queries.{organize, prom_query, tf}
use openwrt_grafana_monitor.Dashboard.Styles.{prom_filter}
use openwrt_grafana_monitor.Dashboard.Panels.Tables.{table}
use openwrt_grafana_monitor.Dashboard.Assemble.{Placement, on_grid}

unfoldable pub opt_panels_first : List Placement
opt_panels_first =
    on_grid
      (some (
        table (pos 607) (codes "mwan3 Interface Status")
          ((prom_query (codes "mwan3_interface_online{" ++ (prom_filter ++ codes "}")) []
              (codes "A") (codes "table") true)
            ∷ (prom_query (codes "mwan3_interface_score{" ++ (prom_filter ++ codes "}")) []
                (codes "B") (codes "table") true)
            ∷ (prom_query (codes "mwan3_interface_uptime{" ++ (prom_filter ++ codes "}")) []
                (codes "C") (codes "table") true)
            ∷ [])
          (codes
            "Optional mwan3 multi-WAN status: one row per interface with a single online/offline cell rather than the raw per-state enum. Empty means mwan3 is not installed or not collected.")
          (some (
            (tf (codes "merge") none)
            ∷ (organize
                (some (
                  (codes "Time")
                  ∷ (codes "__name__")
                  ∷ (codes "status")
                  ∷ (codes "cluster")
                  ∷ (codes "job")
                  ∷ (codes "router")
                  ∷ (codes "endpoint")
                  ∷ (codes "instance")
                  ∷ (codes "namespace")
                  ∷ (codes "prometheus")
                  ∷ (codes "prometheus_replica")
                  ∷ (codes "service")
                  ∷ []))
                (some (
                  "interface" ⇒ (lit "Interface")
                  ∷ "Value #A" ⇒ (lit "Online")
                  ∷ "Value #B" ⇒ (lit "Score")
                  ∷ "Value #C" ⇒ (lit "Uptime")
                  ∷ []))
                none)
            ∷ []))
          (some (
            (dict (
              "matcher" ⇒ (dict ("id" ⇒ (lit "byName") ∷ "options" ⇒ (lit "Online") ∷ []))
              ∷ "properties" ⇒ (
                  list (
                    (dict (
                      "id" ⇒ (lit "custom.cellOptions")
                      ∷ "value" ⇒ (dict ("type" ⇒ (lit "color-background") ∷ []))
                      ∷ []))
                    ∷ (dict ("id" ⇒ (lit "mappings") ∷ "value" ⇒ (list boolean_ok_mappings) ∷ []))
                    ∷ []))
              ∷ []))
            ∷ (dict (
                "matcher" ⇒ (dict ("id" ⇒ (lit "byName") ∷ "options" ⇒ (lit "Uptime") ∷ []))
                ∷ "properties"
                  ⇒ (list ((dict ("id" ⇒ (lit "unit") ∷ "value" ⇒ (lit "s") ∷ [])) ∷ []))
                ∷ []))
            ∷ []))
          (some (codes "Interface")) false))
      0 6 12 7
    ∷ on_grid
        (some (
          timeseries (pos 608) (codes "SQM / Cake Backlog")
            ((prom_query (codes "openwrt_tc_qdisc_backlog_bytes{" ++ (prom_filter ++ codes "}"))
                (codes "{{device}} {{qdisc}}") (codes "A") (codes "time_series") false)
              ∷ [])
            (codes "bytes")
            (codes
              "Qdisc backlog bytes from the SQM/helper script. Missing data means tc is unavailable or the helper is not running.")
            false (pos 15) (codes "linear") none none none (codes "normal") none))
        12 6 6 7
    ∷ on_grid
        (some (
          timeseries (pos 613) (codes "SQM / Cake Drops")
            ((prom_query
                (codes "rate(openwrt_tc_qdisc_drops_total{"
                  ++ (prom_filter ++ codes "}[$__rate_interval])"))
                (codes "{{device}} {{qdisc}} drops") (codes "A") (codes "time_series") false)
              ∷ (prom_query
                  (codes "rate(openwrt_tc_qdisc_overlimits_total{"
                    ++ (prom_filter ++ codes "}[$__rate_interval])"))
                  (codes "{{device}} {{qdisc}} overlimits") (codes "B") (codes "time_series") false)
              ∷ [])
            (codes "pps")
            (codes "Qdisc drop and overlimit packet rates from the SQM/helper script.") false
            (pos 15) (codes "linear") none none none (codes "normal") none))
        18 6 6 7
    ∷ on_grid
        (some (
          timeseries (pos 609) (codes "nftables Named Counter Rate")
            ((prom_query
                (codes "sum by(name) (rate(nft_counter_packets{"
                  ++ (prom_filter ++ codes "}[$__rate_interval]))"))
                (codes "{{name}}") (codes "A") (codes "time_series") false)
              ∷ [])
            (codes "pps")
            (codes
              "Bounded named nftables counters only. Avoid source/destination/port-parameterized counters.")
            false (pos 15) (codes "linear") none none none (codes "normal") none))
        0 13 8 6
    ∷ on_grid
        (some (
          timeseries (pos 610) (codes "IPv6 Packets and Discards")
            ((prom_query
                (codes "rate(snmp6_Ip6InReceives{" ++ (prom_filter ++ codes "}[$__rate_interval])"))
                (codes "IPv6 in {{device}}") (codes "A") (codes "time_series") false)
              ∷ (prom_query
                  (codes "rate(snmp6_Ip6OutRequests{"
                    ++ (prom_filter ++ codes "}[$__rate_interval])"))
                  (codes "IPv6 out {{device}}") (codes "B") (codes "time_series") false)
              ∷ (prom_query
                  (codes "rate(snmp6_Ip6InDiscards{"
                    ++ (prom_filter ++ codes "}[$__rate_interval])"))
                  (codes "IPv6 in discards {{device}}") (codes "C") (codes "time_series") false)
              ∷ (prom_query
                  (codes "rate(snmp6_Ip6OutDiscards{"
                    ++ (prom_filter ++ codes "}[$__rate_interval])"))
                  (codes "IPv6 out discards {{device}}") (codes "D") (codes "time_series") false)
              ∷ [])
            (codes "pps") (codes "Optional snmp6 IPv6 counters. Zero discards are normal.") false
            (pos 15) (codes "linear") none none none (codes "normal") none))
        8 13 8 6
    ∷ on_grid
        (some (
          timeseries (pos 611) (codes "Tailscale Interface Throughput")
            ((prom_query
                (codes "rate(node_network_receive_bytes_total{"
                  ++ (prom_filter ++ codes ", device=\"$vpn_interface\"}[$__rate_interval])"))
                (codes "VPN RX") (codes "A") (codes "time_series") false)
              ∷ (prom_query
                  (codes "rate(node_network_transmit_bytes_total{"
                    ++ (prom_filter ++ codes ", device=\"$vpn_interface\"}[$__rate_interval])"))
                  (codes "VPN TX") (codes "B") (codes "time_series") false)
              ∷ [])
            (codes "Bps")
            (codes
              "Optional VPN interface traffic. Missing data means the configured interface is absent.")
            false (pos 15) (codes "linear") none none none (codes "normal") none))
        16 13 8 6
    ∷ []
