-- ===== src/Dashboard/Operations/OptionalSecond.antt =====
-- Panels of the tab "Optional & Diagnostics" of `build_dashboard`, scripts/build_openwrt_operations_dashboard.py.
use openwrt_grafana_monitor.Prelude.{List, [], false, none, pos, some, true, ◌++◌, ◌∷◌}
use openwrt_grafana_monitor.Text.{codes}
use openwrt_grafana_monitor.Dashboard.Queries.{limit, organize, prom_query, sort_by, tf}
use openwrt_grafana_monitor.Dashboard.Styles.{
  blue, color_override, green, prom_filter, red, regexp_color_override,
}
use openwrt_grafana_monitor.Dashboard.Styles.Mappings.{boolean_ok_mappings}
use openwrt_grafana_monitor.Dashboard.Json.{dict, list, lit, number, ◌⇒◌}
use openwrt_grafana_monitor.Dashboard.Panels.Tables.{table}
use openwrt_grafana_monitor.Dashboard.Panels.Series.{timeseries}
use openwrt_grafana_monitor.Dashboard.Assemble.{Placement, on_grid}

unfoldable pub opt_panels_second : List Placement
opt_panels_second =
    on_grid
      (some (
        timeseries (pos 614) (codes "IPv6 Throughput")
          ((prom_query
              (codes "rate(snmp6_Ip6InOctets{"
                ++ (prom_filter ++ codes ", device=\"all\"}[$__rate_interval]) * 8"))
              (codes "IPv6 in") (codes "A") (codes "time_series") false)
            ∷ (prom_query
                (codes "rate(snmp6_Ip6OutOctets{"
                  ++ (prom_filter ++ codes ", device=\"all\"}[$__rate_interval]) * 8"))
                (codes "IPv6 out") (codes "B") (codes "time_series") false)
            ∷ [])
          (codes "bps")
          (codes
            "Router-wide IPv6 byte throughput from snmp6 counters. Zero is normal on IPv4-only WANs.")
          false (pos 15) (codes "linear")
          (some (
            (color_override (codes "IPv6 in") green)
            ∷ (color_override (codes "IPv6 out") blue)
            ∷ []))
          none none (codes "normal") none))
      0 19 8 7
    ∷ on_grid
        (some (
          timeseries (pos 615) (codes "ICMPv6 Message Rate")
            ((prom_query
                (codes "sum(rate(snmp6_Icmp6InRouterAdvertisements{"
                  ++ (prom_filter
                      ++ (codes "}[$__rate_interval]) + rate(snmp6_Icmp6OutRouterAdvertisements{"
                          ++ (prom_filter ++ codes "}[$__rate_interval]))"))))
                (codes "Router advertisements") (codes "A") (codes "time_series") false)
              ∷ (prom_query
                  (codes "sum(rate(snmp6_Icmp6InNeighborSolicits{"
                    ++ (prom_filter
                        ++ (codes "}[$__rate_interval]) + rate(snmp6_Icmp6OutNeighborSolicits{"
                            ++ (prom_filter ++ codes "}[$__rate_interval]))"))))
                  (codes "Neighbor solicits") (codes "B") (codes "time_series") false)
              ∷ (prom_query
                  (codes "sum(rate(snmp6_Icmp6InEchos{"
                    ++ (prom_filter ++ codes "}[$__rate_interval]))"))
                  (codes "Echo requests in") (codes "C") (codes "time_series") false)
              ∷ (prom_query
                  (codes "sum(rate(snmp6_Icmp6InErrors{"
                    ++ (prom_filter ++ codes "}[$__rate_interval]))"))
                  (codes "ICMPv6 errors") (codes "D") (codes "time_series") false)
              ∷ [])
            (codes "pps")
            (codes
              "ICMPv6 control-plane activity: RA/ND is normal IPv6 housekeeping; a spike in errors is not.")
            false (pos 15) (codes "linear")
            (some ((color_override (codes "ICMPv6 errors") red) ∷ [])) none none (codes "normal")
            none))
        8 19 8 7
    ∷ on_grid
        (some (
          table (pos 616) (codes "IPv6 WAN & Prefix Health")
            ((prom_query (codes "openwrt_wan6_up{" ++ (prom_filter ++ codes "}")) [] (codes "A")
                (codes "table") true)
              ∷ (prom_query (codes "openwrt_ipv6_default_route_up{" ++ (prom_filter ++ codes "}"))
                  [] (codes "B") (codes "table") true)
              ∷ (prom_query (codes "openwrt_ipv6_global_addresses{" ++ (prom_filter ++ codes "}"))
                  [] (codes "C") (codes "table") true)
              ∷ (prom_query
                  (codes "openwrt_ipv6_prefix_valid_seconds{" ++ (prom_filter ++ codes "}")) []
                  (codes "D") (codes "table") true)
              ∷ [])
            (codes
              "IPv6 WAN reachability, default route, global address count, and delegated-prefix remaining lifetime. All zero means the ISP is not delegating IPv6.")
            (some (
              (tf (codes "merge") none)
              ∷ (organize
                  (some (
                    (codes "Time")
                    ∷ (codes "__name__")
                    ∷ (codes "cluster")
                    ∷ (codes "job")
                    ∷ (codes "endpoint")
                    ∷ (codes "instance")
                    ∷ (codes "namespace")
                    ∷ (codes "prometheus")
                    ∷ (codes "prometheus_replica")
                    ∷ (codes "service")
                    ∷ []))
                  (some (
                    "router" ⇒ (lit "Router")
                    ∷ "Value #A" ⇒ (lit "WAN6 Up")
                    ∷ "Value #B" ⇒ (lit "Default Route")
                    ∷ "Value #C" ⇒ (lit "Global Addrs")
                    ∷ "Value #D" ⇒ (lit "Prefix Valid (s)")
                    ∷ []))
                  none)
              ∷ (organize none (some []) (some ("Router" ⇒ (number 0) ∷ [])))
              ∷ []))
            (some (
              (dict (
                "matcher"
                  ⇒ (dict ("id" ⇒ (lit "byName") ∷ "options" ⇒ (lit "Prefix Valid (s)") ∷ []))
                ∷ "properties"
                  ⇒ (list ((dict ("id" ⇒ (lit "unit") ∷ "value" ⇒ (lit "s") ∷ [])) ∷ []))
                ∷ []))
              ∷ (dict (
                  "matcher" ⇒ (
                    dict
                      ("id" ⇒ (lit "byRegexp") ∷ "options" ⇒ (lit "/WAN6 Up|Default Route/") ∷ []))
                  ∷ "properties" ⇒ (
                      list (
                        (dict (
                          "id" ⇒ (lit "custom.cellOptions")
                          ∷ "value" ⇒ (dict ("type" ⇒ (lit "color-background") ∷ []))
                          ∷ []))
                        ∷ (dict
                            ("id" ⇒ (lit "mappings") ∷ "value" ⇒ (list boolean_ok_mappings) ∷ []))
                        ∷ []))
                  ∷ []))
              ∷ []))
            (some (codes "Router")) false))
        16 19 8 7
    ∷ on_grid
        (some (
          timeseries (pos 617) (codes "UDP6 Errors")
            ((prom_query
                (codes "sum(rate(snmp6_Udp6InErrors{"
                  ++ (prom_filter ++ codes "}[$__rate_interval]))"))
                (codes "In errors") (codes "A") (codes "time_series") false)
              ∷ (prom_query
                  (codes "sum(rate(snmp6_Udp6NoPorts{"
                    ++ (prom_filter ++ codes "}[$__rate_interval]))"))
                  (codes "No port") (codes "B") (codes "time_series") false)
              ∷ (prom_query
                  (codes "sum(rate(snmp6_Udp6RcvbufErrors{"
                    ++ (prom_filter ++ codes "}[$__rate_interval]))"))
                  (codes "Receive-buffer errors") (codes "C") (codes "time_series") false)
              ∷ [])
            (codes "pps")
            (codes
              "IPv6 UDP error rates. Sustained receive-buffer errors indicate a socket consumer falling behind.")
            false (pos 15) (codes "linear")
            (some ((regexp_color_override (codes "/error/i") red) ∷ [])) none none (codes "normal")
            none))
        0 26 12 6
    ∷ on_grid
        (some (
          timeseries (pos 618) (codes "IPv6 Fragmentation & Reassembly")
            ((prom_query
                (codes "sum(rate(snmp6_Ip6ReasmReqds{"
                  ++ (prom_filter ++ codes "}[$__rate_interval]))"))
                (codes "Reassembly required") (codes "A") (codes "time_series") false)
              ∷ (prom_query
                  (codes "sum(rate(snmp6_Ip6ReasmFails{"
                    ++ (prom_filter ++ codes "}[$__rate_interval]))"))
                  (codes "Reassembly failed") (codes "B") (codes "time_series") false)
              ∷ (prom_query
                  (codes "sum(rate(snmp6_Ip6FragFails{"
                    ++ (prom_filter ++ codes "}[$__rate_interval]))"))
                  (codes "Fragmentation failed") (codes "C") (codes "time_series") false)
              ∷ [])
            (codes "pps")
            (codes
              "IPv6 fragment handling. Reassembly or fragmentation failures point to MTU/PMTUD problems on the path.")
            false (pos 15) (codes "linear")
            (some ((regexp_color_override (codes "/failed/i") red) ∷ [])) none none (codes "normal")
            none))
        12 26 12 6
    ∷ on_grid
        (some (
          table (pos 612) (codes "Metric Inventory")
            ((prom_query (codes "count by(__name__) ({" ++ (prom_filter ++ codes "})")) []
                (codes "A") (codes "table") true)
              ∷ [])
            (codes
              "Complete Prometheus metric inventory for this job, so every collected series is discoverable from the dashboard itself.")
            (some (
              (organize (some ((codes "Time") ∷ []))
                (some ("__name__" ⇒ (lit "Metric") ∷ "Value" ⇒ (lit "Series Count") ∷ [])) none)
              ∷ (sort_by (codes "Metric") false)
              ∷ (limit (pos 500))
              ∷ []))
            none (some (codes "Metric")) false))
        0 32 24 10
    ∷ []
