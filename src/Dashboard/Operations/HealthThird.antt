-- ===== src/Dashboard/Operations/HealthThird.antt =====
-- Panels of the tab "Router Health" of `build_dashboard`, scripts/build_openwrt_operations_dashboard.py.
use openwrt_grafana_monitor.Prelude.{List, [], false, none, pos, some, true, ◌++◌, ◌∷◌}
use openwrt_grafana_monitor.Text.{codes}
use openwrt_grafana_monitor.Dashboard.Panels.Series.{timeseries}
use openwrt_grafana_monitor.Dashboard.Styles.{gray, green, prom_filter}
use openwrt_grafana_monitor.Dashboard.Json.{dict, list, lit, number, str, ◌⇒◌}
use openwrt_grafana_monitor.Dashboard.Styles.Mappings.{boolean_ok_mappings}
use openwrt_grafana_monitor.Dashboard.Queries.{organize, prom_query, tf}
use openwrt_grafana_monitor.Dashboard.Panels.Values.{stat}
use openwrt_grafana_monitor.Dashboard.Panels.Tables.{table}
use openwrt_grafana_monitor.Dashboard.Assemble.{Placement, on_grid}

unfoldable pub health_panels_third : List Placement
health_panels_third =
    on_grid
      (some (
        table (pos 414) (codes "WAN Identity")
          ((prom_query (codes "wan_info{" ++ (prom_filter ++ codes "}")) [] (codes "A")
              (codes "table") true)
            ∷ [])
          (codes "WAN IP, public IP, and hostname from this repo's textfile collector.")
          (some (
            (organize
              (some (
                (codes "Time")
                ∷ (codes "__name__")
                ∷ (codes "Value")
                ∷ (codes "cluster")
                ∷ (codes "endpoint")
                ∷ (codes "instance")
                ∷ (codes "job")
                ∷ (codes "namespace")
                ∷ (codes "prometheus")
                ∷ (codes "prometheus_replica")
                ∷ (codes "router")
                ∷ (codes "service")
                ∷ []))
              (some (
                "hostname" ⇒ (lit "Hostname")
                ∷ "publicip" ⇒ (lit "Public IP")
                ∷ "wanip" ⇒ (lit "WAN IP")
                ∷ []))
              (some
                ("Hostname" ⇒ (number 0) ∷ "WAN IP" ⇒ (number 1) ∷ "Public IP" ⇒ (number 2) ∷ [])))
            ∷ []))
          none none true))
      12 31 12 6
    ∷ on_grid
        (stat (pos 415) (codes "Services Up")
          (codes "sum(openwrt_service_up{" ++ (prom_filter ++ codes "}) or vector(0)"))
          (codes "none")
          (codes
            "Count of monitored init services currently running. Compare with the service table below to see which are down.")
          [] (codes "neutral") none false none (codes "value") (codes "Unavailable"))
        0 37 6 5
    ∷ on_grid
        (stat (pos 416) (codes "Carrier Flaps in Range")
          (codes "sum(increase(openwrt_link_carrier_changes_total{"
            ++ (prom_filter ++ codes "}[$__range])) or vector(0)"))
          (codes "none")
          (codes
            "Total interface carrier (link up/down) transitions in the selected range. Repeated flaps indicate a bad cable, port, or negotiation problem.")
          [] (codes "ok_bad") none true none (codes "background_solid") (codes "Unavailable"))
        6 37 6 5
    ∷ on_grid
        (stat (pos 417) (codes "TCP Accept-Queue Drops")
          (codes "sum(increase(openwrt_tcp_listen_drops_total{"
            ++ (prom_filter
                ++ (codes "}[$__range]) + increase(openwrt_tcp_listen_overflows_total{"
                    ++ (prom_filter ++ codes "}[$__range])) or vector(0)"))))
          (codes "none")
          (codes
            "Connections dropped because a listening socket's accept queue overflowed. Non-zero means a local service could not keep up with inbound connections.")
          [] (codes "ok_bad") none true none (codes "background_solid") (codes "Unavailable"))
        12 37 6 5
    ∷ on_grid
        (stat (pos 418) (codes "Softnet Backlog Drops")
          (codes "sum(increase(openwrt_softnet_dropped_total{"
            ++ (prom_filter ++ codes "}[$__range])) or vector(0)"))
          (codes "none")
          (codes
            "Packets dropped from the per-CPU softirq backlog in range. Non-zero points to CPU saturation on the network receive path.")
          [] (codes "ok_bad") none true none (codes "background_solid") (codes "Unavailable"))
        18 37 6 5
    ∷ on_grid
        (some (
          table (pos 419) (codes "Service Health")
            ((prom_query (codes "openwrt_service_up{" ++ (prom_filter ++ codes "}")) [] (codes "A")
                (codes "table") true)
              ∷ (prom_query (codes "openwrt_service_enabled{" ++ (prom_filter ++ codes "}")) []
                  (codes "B") (codes "table") true)
              ∷ [])
            (codes
              "Per-service running and boot-enabled state from the service-health helper. A service enabled but not running is the interesting case.")
            (some (
              (tf (codes "merge") none)
              ∷ (organize
                  (some (
                    (codes "Time")
                    ∷ (codes "__name__")
                    ∷ (codes "cluster")
                    ∷ (codes "job")
                    ∷ (codes "router")
                    ∷ (codes "endpoint")
                    ∷ (codes "instance")
                    ∷ (codes "namespace")
                    ∷ (codes "prometheus")
                    ∷ (codes "prometheus_replica")
                    ∷ (codes "service")
                    ∷ []))
                  (some (
                    "exported_service" ⇒ (lit "Service")
                    ∷ "Value #A" ⇒ (lit "Running")
                    ∷ "Value #B" ⇒ (lit "Enabled")
                    ∷ []))
                  none)
              ∷ []))
            (some (
              (dict (
                "matcher" ⇒ (dict ("id" ⇒ (lit "byName") ∷ "options" ⇒ (lit "Running") ∷ []))
                ∷ "properties" ⇒ (
                    list (
                      (dict (
                        "id" ⇒ (lit "custom.cellOptions")
                        ∷ "value" ⇒ (dict ("type" ⇒ (lit "color-background") ∷ []))
                        ∷ []))
                      ∷ (dict ("id" ⇒ (lit "mappings") ∷ "value" ⇒ (list boolean_ok_mappings) ∷ []))
                      ∷ []))
                ∷ []))
              ∷ (dict (
                  "matcher" ⇒ (dict ("id" ⇒ (lit "byName") ∷ "options" ⇒ (lit "Enabled") ∷ []))
                  ∷ "properties" ⇒ (
                      list (
                        (dict (
                          "id" ⇒ (lit "custom.cellOptions")
                          ∷ "value" ⇒ (dict ("type" ⇒ (lit "color-background") ∷ []))
                          ∷ []))
                        ∷ (dict (
                            "id" ⇒ (lit "mappings")
                            ∷ "value" ⇒ (
                                list (
                                  (dict (
                                    "type" ⇒ (lit "value")
                                    ∷ "options" ⇒ (
                                        dict (
                                          "1" ⇒ (
                                            dict (
                                              "text" ⇒ (lit "Yes")
                                              ∷ "color" ⇒ (str green)
                                              ∷ "index" ⇒ (number 0)
                                              ∷ []))
                                          ∷ "0" ⇒ (
                                              dict (
                                                "text" ⇒ (lit "No")
                                                ∷ "color" ⇒ (str gray)
                                                ∷ "index" ⇒ (number 1)
                                                ∷ []))
                                          ∷ []))
                                    ∷ []))
                                  ∷ []))
                            ∷ []))
                        ∷ []))
                  ∷ []))
              ∷ []))
            (some (codes "Running")) false))
        0 42 12 8
    ∷ on_grid
        (some (
          timeseries (pos 420) (codes "Firewall Throughput by Chain")
            ((prom_query
                (codes "sum by(chain) (rate(openwrt_firewall_chain_bytes_total{"
                  ++ (prom_filter ++ codes "}[$__rate_interval]) * 8)"))
                (codes "{{chain}}") (codes "A") (codes "time_series") false)
              ∷ [])
            (codes "bps")
            (codes
              "Traffic passing each firewall chain, from nftables byte counters. A view of where the packet-processing load sits.")
            false (pos 15) (codes "linear") none none none (codes "normal") none))
        12 42 12 8
    ∷ []
