-- ===== src/Dashboard/Operations/Wan.antt =====
-- Panels of the tab "WAN & Internet" of `build_dashboard`, scripts/build_openwrt_operations_dashboard.py.
use openwrt_grafana_monitor.Prelude.{List, [], false, none, pos, some, true, ◌++◌, ◌∷◌}
use openwrt_grafana_monitor.Text.{codes}
use openwrt_grafana_monitor.Dashboard.Styles.Mappings.{boolean_ok_mappings}
use openwrt_grafana_monitor.Dashboard.Panels.Values.{stat}
use openwrt_grafana_monitor.Dashboard.Styles.{
  blue, color_override, green, prom_filter, red, regexp_color_override, threshold_for,
}
use openwrt_grafana_monitor.Dashboard.Queries.{prom_query}
use openwrt_grafana_monitor.Dashboard.Panels.Series.{timeseries}
use openwrt_grafana_monitor.Dashboard.Builder.{text_panel}
use openwrt_grafana_monitor.Dashboard.Assemble.{Placement, on_grid}

unfoldable pub wan_panels : List Placement
wan_panels =
    on_grid
      (some (
        text_panel (pos 100) [] (
          codes
            "## WAN & Internet\nValidate internet reachability first: throughput, packet rate, interface errors, gateway, resolver, and internet probes.")))
      0 0 24 3
    ∷ on_grid
        (some (
          timeseries (pos 101) (codes "WAN Throughput RX/TX")
            ((prom_query
                (codes "rate(node_network_receive_bytes_total{"
                  ++ (prom_filter ++ codes ", device=\"$wan_interface\"}[$__rate_interval])"))
                (codes "RX download") (codes "A") (codes "time_series") false)
              ∷ (prom_query
                  (codes "rate(node_network_transmit_bytes_total{"
                    ++ (prom_filter ++ codes ", device=\"$wan_interface\"}[$__rate_interval])"))
                  (codes "TX upload") (codes "B") (codes "time_series") false)
              ∷ [])
            (codes "Bps") (codes "Combined WAN throughput for direct RX/TX comparison.") false
            (pos 15) (codes "linear")
            (some (
              (color_override (codes "RX download") green)
              ∷ (color_override (codes "TX upload") blue)
              ∷ []))
            none none (codes "normal") none))
        0 3 12 8
    ∷ on_grid
        (some (
          timeseries (pos 102) (codes "WAN Packets/sec")
            ((prom_query
                (codes "rate(node_network_receive_packets_total{"
                  ++ (prom_filter ++ codes ", device=\"$wan_interface\"}[$__rate_interval])"))
                (codes "RX packets") (codes "A") (codes "time_series") false)
              ∷ (prom_query
                  (codes "rate(node_network_transmit_packets_total{"
                    ++ (prom_filter ++ codes ", device=\"$wan_interface\"}[$__rate_interval])"))
                  (codes "TX packets") (codes "B") (codes "time_series") false)
              ∷ [])
            (codes "pps")
            (codes
              "WAN packet rate. High PPS with low throughput often means small-packet workloads.")
            false (pos 15) (codes "linear")
            (some (
              (color_override (codes "RX packets") green)
              ∷ (color_override (codes "TX packets") blue)
              ∷ []))
            none none (codes "normal") none))
        12 3 12 8
    ∷ on_grid
        (some (
          timeseries (pos 103) (codes "WAN Errors & Drops")
            ((prom_query
                (codes "rate(node_network_receive_errs_total{"
                  ++ (prom_filter ++ codes ", device=\"$wan_interface\"}[$__rate_interval])"))
                (codes "RX errors") (codes "A") (codes "time_series") false)
              ∷ (prom_query
                  (codes "rate(node_network_receive_drop_total{"
                    ++ (prom_filter ++ codes ", device=\"$wan_interface\"}[$__rate_interval])"))
                  (codes "RX drops") (codes "B") (codes "time_series") false)
              ∷ (prom_query
                  (codes "rate(node_network_transmit_errs_total{"
                    ++ (prom_filter ++ codes ", device=\"$wan_interface\"}[$__rate_interval])"))
                  (codes "TX errors") (codes "C") (codes "time_series") false)
              ∷ (prom_query
                  (codes "rate(node_network_transmit_drop_total{"
                    ++ (prom_filter ++ codes ", device=\"$wan_interface\"}[$__rate_interval])"))
                  (codes "TX drops") (codes "D") (codes "time_series") false)
              ∷ [])
            (codes "pps")
            (codes
              "WAN errors and drops. TX drops are included when exported by the node network collector.")
            false (pos 15) (codes "linear")
            (some ((regexp_color_override (codes "/errors|drops/i") red) ∷ [])) none none
            (codes "normal") none))
        0 11 12 8
    ∷ on_grid
        (some (
          timeseries (pos 104) (codes "WAN Probe Packet Loss")
            ((prom_query
                (codes "openwrt_wan_probe_packet_loss_percent{" ++ (prom_filter ++ codes "}"))
                (codes "{{target}} {{address}}") (codes "A") (codes "time_series") false)
              ∷ [])
            (codes "percent")
            (codes
              "Packet loss from gateway, resolver, and internet probes. Targets are emitted by the WAN quality helper.")
            false (pos 15) (codes "linear") none (threshold_for (codes "loss_percent")) none
            (codes "normal") none))
        12 11 6 8
    ∷ on_grid
        (some (
          timeseries (pos 109) (codes "WAN Probe Latency")
            ((prom_query
                (codes "openwrt_wan_probe_latency_milliseconds{"
                  ++ (prom_filter ++ codes "} / 1000"))
                (codes "{{target}} {{address}}") (codes "A") (codes "time_series") false)
              ∷ [])
            (codes "s") (codes "Probe latency from the router WAN quality helper.") false (pos 15)
            (codes "linear") none (threshold_for (codes "latency_seconds")) none (codes "normal")
            none))
        18 11 6 8
    ∷ on_grid
        (stat (pos 105) (codes "Gateway Packet Loss")
          (codes "max(openwrt_wan_probe_packet_loss_percent{"
            ++ (prom_filter ++ codes ", target=\"gateway\"}) or vector(0)"))
          (codes "percent") (codes "Current packet loss to the IPv4 default gateway.") []
          (codes "loss_percent") none true none (codes "background_solid") (codes "Unavailable"))
        0 19 6 5
    ∷ on_grid
        (stat (pos 106) (codes "Probe Success")
          (codes "min(openwrt_wan_probe_success{"
            ++ (prom_filter ++ codes ", target=~\"internet|resolver\"}) or vector(0)"))
          (codes "none")
          (codes "Internet and resolver probe success. 1 means all present probes succeeded.") []
          (codes "ok_bad") (some boolean_ok_mappings) true none (codes "background_solid")
          (codes "Unavailable"))
        6 19 6 5
    ∷ on_grid
        (stat (pos 107) (codes "Worst Probe Latency")
          (codes "max(openwrt_wan_probe_latency_milliseconds{"
            ++ (prom_filter ++ codes "} / 1000) or vector(0)"))
          (codes "s") (codes "Worst current probe latency from the router WAN quality helper.") []
          (codes "latency_seconds") none true none (codes "background_solid") (codes "Unavailable"))
        12 19 6 5
    ∷ on_grid
        (stat (pos 108) (codes "Internet Packet Loss")
          (codes "max(openwrt_wan_probe_packet_loss_percent{"
            ++ (prom_filter ++ codes ", target=\"internet\"}) or vector(0)"))
          (codes "percent") (codes "Current packet loss to the configured internet probe target.")
          [] (codes "loss_percent") none true none (codes "background_solid") (codes "Unavailable"))
        18 19 6 5
    ∷ []
