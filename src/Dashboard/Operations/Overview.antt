-- ===== src/Dashboard/Operations/Overview.antt =====
-- Panels of the tab "Overview" of `build_dashboard`, scripts/build_openwrt_operations_dashboard.py.
use openwrt_grafana_monitor.Prelude.{List, [], false, none, pos, some, true, ◌++◌, ◌∷◌}
use openwrt_grafana_monitor.Text.{codes}
use openwrt_grafana_monitor.Dashboard.Styles.{
  blue, color_override, green, prom_filter, purple, red, threshold_for,
}
use openwrt_grafana_monitor.Dashboard.Json.{dict, list, lit, number, str, ◌⇒◌}
use openwrt_grafana_monitor.Dashboard.Queries.{prom_query}
use openwrt_grafana_monitor.Dashboard.Panels.Series.{timeseries}
use openwrt_grafana_monitor.Dashboard.Styles.Mappings.{boolean_ok_mappings, status_mappings}
use openwrt_grafana_monitor.Dashboard.Panels.Values.{stat}
use openwrt_grafana_monitor.Dashboard.Assemble.{Placement, on_grid}

unfoldable pub overview_panels : List Placement
overview_panels =
    on_grid
      (stat (pos 1) (codes "Router Health")
        (codes "min(up{" ++ (prom_filter ++ codes "}) or vector(0)")) (codes "none")
        (codes "Exporter target reachability. 1 means Prometheus is scraping the OpenWrt router.")
        [] (codes "ok_bad") (some status_mappings) false none (codes "background_solid")
        (codes "Unavailable"))
      0 0 4 4
    ∷ on_grid
        (stat (pos 2) (codes "WAN Health")
          (codes "(min(openwrt_wan_probe_success{"
            ++ (prom_filter
                ++ (codes
                      ", target=~\"internet|resolver\"}) * (max(openwrt_wan_probe_packet_loss_percent{"
                    ++ (prom_filter ++ codes ", target=\"internet\"}) < bool 1)) or vector(0)"))))
          (codes "none")
          (codes
            "Internet/resolver probes must succeed and internet packet loss must stay below 1%.")
          [] (codes "ok_bad") (some boolean_ok_mappings) false none (codes "background_solid")
          (codes "Unavailable"))
        4 0 4 4
    ∷ on_grid
        (stat (pos 3) (codes "Online Clients")
          (codes "sum(router_device_up{" ++ (prom_filter ++ codes "}) or vector(0)")) (codes "none")
          (codes "Devices currently marked online by the router textfile collector.") []
          (codes "neutral") none true none (codes "value") (codes "Unavailable"))
        8 0 4 4
    ∷ on_grid
        (stat (pos 4) (codes "Conntrack Used")
          (codes "max(node_nf_conntrack_entries{"
            ++ (prom_filter
                ++ (codes "} / node_nf_conntrack_entries_limit{"
                    ++ (prom_filter ++ codes "}) or vector(0)"))))
          (codes "percentunit")
          (codes "Active conntrack sessions as a percentage of router capacity.") []
          (codes "capacity") none true (some (number 1)) (codes "value") (codes "Unavailable"))
        12 0 4 4
    ∷ on_grid
        (stat (pos 5) (codes "Resource Pressure")
          (codes "max((1 - (node_memory_MemAvailable_bytes{"
            ++ (prom_filter
                ++ (codes "} / node_memory_MemTotal_bytes{"
                    ++ (prom_filter
                        ++ (codes "})) or (node_nf_conntrack_entries{"
                            ++ (prom_filter
                                ++ (codes "} / node_nf_conntrack_entries_limit{"
                                    ++ (prom_filter
                                        ++ (codes "}) or (openwrt_filesystem_used_percent{"
                                            ++ (prom_filter
                                                ++ codes
                                                    ", mount=\"/overlay\"} / 100)) or vector(0)"))))))))))
          (codes "percentunit")
          (codes "Worst current utilization across memory, conntrack, and overlay flash.") []
          (codes "capacity") none true (some (number 1)) (codes "value") (codes "Unavailable"))
        16 0 4 4
    ∷ on_grid
        (stat (pos 6) (codes "Telemetry Freshness")
          (codes "max(time() - node_textfile_mtime_seconds{"
            ++ (prom_filter ++ codes "}) or vector(999999)"))
          (codes "s")
          (codes
            "Age of the oldest custom textfile metric. Helpers run on a 1-to-10-minute cadence, so a healthy value climbs to about 10 minutes before the slowest helper refreshes. Yellow past 11 minutes means a slow helper missed a run.")
          [] (codes "freshness") none true none (codes "background_solid") (codes "Unavailable"))
        20 0 4 4
    ∷ on_grid
        (some (
          timeseries (pos 7) (codes "WAN Throughput")
            ((prom_query
                (codes "rate(node_network_receive_bytes_total{"
                  ++ (prom_filter ++ codes ", device=\"$wan_interface\"}[$__rate_interval])"))
                (codes "Download RX") (codes "A") (codes "time_series") false)
              ∷ (prom_query
                  (codes "rate(node_network_transmit_bytes_total{"
                    ++ (prom_filter ++ codes ", device=\"$wan_interface\"}[$__rate_interval])"))
                  (codes "Upload TX") (codes "B") (codes "time_series") false)
              ∷ [])
            (codes "Bps")
            (codes "WAN RX/TX bytes per second. Counters are converted with rate() before display.")
            false (pos 15) (codes "linear")
            (some (
              (color_override (codes "Download RX") green)
              ∷ (color_override (codes "Upload TX") blue)
              ∷ []))
            none none (codes "normal") none))
        0 4 12 8
    ∷ on_grid
        (some (
          timeseries (pos 8) (codes "CPU, Memory, and Conntrack Pressure")
            ((prom_query
                (codes "1 - avg(rate(node_cpu_seconds_total{"
                  ++ (prom_filter ++ codes ", mode=\"idle\"}[$__rate_interval]))"))
                (codes "CPU busy") (codes "A") (codes "time_series") false)
              ∷ (prom_query
                  (codes "1 - (node_memory_MemAvailable_bytes{"
                    ++ (prom_filter
                        ++ (codes "} / node_memory_MemTotal_bytes{"
                            ++ (prom_filter ++ codes "})"))))
                  (codes "Memory used") (codes "B") (codes "time_series") false)
              ∷ (prom_query
                  (codes "node_nf_conntrack_entries{"
                    ++ (prom_filter
                        ++ (codes "} / node_nf_conntrack_entries_limit{"
                            ++ (prom_filter ++ codes "}"))))
                  (codes "Conntrack used") (codes "C") (codes "time_series") false)
              ∷ [])
            (codes "percentunit") (codes "The three fastest limits to check during an incident.")
            false (pos 15) (codes "linear") none (threshold_for (codes "capacity"))
            (some ((codes "lastNotNull") ∷ [])) (codes "normal") none))
        12 4 12 9
    ∷ on_grid
        (some (
          timeseries (pos 9) (codes "WAN Latency & Loss")
            ((prom_query
                (codes "max(openwrt_wan_probe_latency_milliseconds{"
                  ++ (prom_filter ++ codes ", target=\"internet\"}) / 1000"))
                (codes "Internet latency") (codes "A") (codes "time_series") false)
              ∷ (prom_query
                  (codes "max(openwrt_wan_probe_packet_loss_percent{"
                    ++ (prom_filter ++ codes ", target=\"internet\"}) / 100"))
                  (codes "Internet loss") (codes "B") (codes "time_series") false)
              ∷ [])
            (codes "s")
            (codes
              "Internet probe latency and loss together, so a slow-vs-lossy WAN is distinguishable at a glance. Loss is drawn on the right as a fraction.")
            false (pos 15) (codes "linear")
            (some (
              (color_override (codes "Internet latency") blue)
              ∷ (dict (
                  "matcher"
                    ⇒ (dict ("id" ⇒ (lit "byName") ∷ "options" ⇒ (lit "Internet loss") ∷ []))
                  ∷ "properties" ⇒ (
                      list (
                        (dict (
                          "id" ⇒ (lit "color")
                          ∷ "value"
                            ⇒ (dict ("mode" ⇒ (lit "fixed") ∷ "fixedColor" ⇒ (str red) ∷ []))
                          ∷ []))
                        ∷ (dict ("id" ⇒ (lit "unit") ∷ "value" ⇒ (lit "percentunit") ∷ []))
                        ∷ (dict
                            ("id" ⇒ (lit "custom.axisPlacement") ∷ "value" ⇒ (lit "right") ∷ []))
                        ∷ []))
                  ∷ []))
              ∷ []))
            none (some ((codes "lastNotNull") ∷ (codes "max") ∷ [])) (codes "normal") none))
        0 13 12 7
    ∷ on_grid
        (some (
          timeseries (pos 10) (codes "Client & Session Trend")
            ((prom_query (codes "sum(router_device_up{" ++ (prom_filter ++ codes "}) or vector(0)"))
                (codes "Online clients") (codes "A") (codes "time_series") false)
              ∷ (prom_query (codes "max(node_nf_conntrack_entries{" ++ (prom_filter ++ codes "})"))
                  (codes "Conntrack sessions") (codes "B") (codes "time_series") false)
              ∷ [])
            (codes "none")
            (codes
              "Online client count and active NAT sessions over time. Divergence (sessions climbing while clients flat) can signal a chatty or misbehaving host.")
            false (pos 15) (codes "linear")
            (some (
              (color_override (codes "Online clients") green)
              ∷ (color_override (codes "Conntrack sessions") purple)
              ∷ []))
            none (some ((codes "lastNotNull") ∷ (codes "max") ∷ [])) (codes "normal") none))
        12 13 12 7
    ∷ []
