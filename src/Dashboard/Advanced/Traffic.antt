-- ===== src/Dashboard/Advanced/Traffic.antt =====
-- Panels of the tab "Device Traffic" of `build_dashboard`, scripts/build_openwrt_advanced_dashboard.py.
use openwrt_grafana_monitor.Prelude.{List, [], false, none, pos, some, true, ◌++◌, ◌∷◌}
use openwrt_grafana_monitor.Text.{codes}
use openwrt_grafana_monitor.Dashboard.Styles.Mappings.{availability_mappings}
use openwrt_grafana_monitor.Dashboard.Styles.{prom_filter}
use openwrt_grafana_monitor.Dashboard.Panels.Values.{stat}
use openwrt_grafana_monitor.Dashboard.Json.{lit, number, ◌⇒◌}
use openwrt_grafana_monitor.Dashboard.Queries.{organize, prom_query}
use openwrt_grafana_monitor.Dashboard.Panels.Tables.{table}
use openwrt_grafana_monitor.Dashboard.Advanced.Base.{device_filter}
use openwrt_grafana_monitor.Dashboard.Panels.Series.{timeseries}
use openwrt_grafana_monitor.Dashboard.Builder.{text_panel}
use openwrt_grafana_monitor.Dashboard.Assemble.{Placement, on_grid}

unfoldable pub advanced_traffic : List Placement
advanced_traffic =
    on_grid
      (some (
        text_panel (pos 100) [] (
          codes
            "## Per-device traffic\nThe router installs accept-policy nftables counters before the normal forwarding path. Broadcast and multicast are excluded. Counters are read through `nft -j` on the router; no privileged exporter binary is required.")))
      0 0 24 4
    ∷ on_grid
        (some (
          timeseries (pos 101) (codes "Upload and Download by Device")
            ((prom_query
                (codes "sum by(device, direction) (rate(openwrt_device_traffic_bytes_total{"
                  ++ (device_filter ++ codes "}[$__rate_interval]))"))
                (codes "{{device}} {{direction}}") (codes "A") (codes "time_series") false)
              ∷ [])
            (codes "Bps")
            (codes
              "Per-device byte rate. Use the Device variable to focus the chart when the router has many leases.")
            false (pos 15) (codes "linear") none none none (codes "normal") none))
        0 4 24 9
    ∷ on_grid
        (some (
          table (pos 102) (codes "Device Identity")
            ((prom_query (codes "openwrt_device_info{" ++ (device_filter ++ codes "}")) []
                (codes "A") (codes "table") true)
              ∷ [])
            (codes "Hostname-first identity labels with bounded IP and MAC metadata.")
            (some (
              (organize
                (some (
                  (codes "Time")
                  ∷ (codes "__name__")
                  ∷ (codes "Value")
                  ∷ (codes "cluster")
                  ∷ (codes "endpoint")
                  ∷ (codes "instance")
                  ∷ (codes "job")
                  ∷ (codes "namespace")
                  ∷ (codes "prometheus")
                  ∷ (codes "prometheus_replica")
                  ∷ (codes "router")
                  ∷ (codes "service")
                  ∷ []))
                (some (
                  "device" ⇒ (lit "Device")
                  ∷ "ip" ⇒ (lit "IP")
                  ∷ "mac" ⇒ (lit "MAC")
                  ∷ "interface" ⇒ (lit "Interface")
                  ∷ []))
                (some (
                  "Device" ⇒ (number 0)
                  ∷ "IP" ⇒ (number 1)
                  ∷ "MAC" ⇒ (number 2)
                  ∷ "Interface" ⇒ (number 3)
                  ∷ [])))
              ∷ []))
            none (some (codes "Device")) false))
        0 13 12 9
    ∷ on_grid
        (some (
          timeseries (pos 103) (codes "Packets by Direction")
            ((prom_query
                (codes "sum by(direction) (rate(openwrt_device_traffic_packets_total{"
                  ++ (device_filter ++ codes "}[$__rate_interval]))"))
                (codes "{{direction}}") (codes "A") (codes "time_series") false)
              ∷ [])
            (codes "pps")
            (codes
              "Packet rate from the same nftables counters. Large gaps can indicate a counter-set reload or lease churn.")
            false (pos 15) (codes "linear") none none none (codes "normal") none))
        12 13 12 9
    ∷ on_grid
        (stat (pos 104) (codes "Traffic Counter Series")
          (codes "count(openwrt_device_traffic_bytes_total{"
            ++ (device_filter ++ codes "}) or vector(0)"))
          (codes "none")
          (codes "Current byte-counter series for the selected router and device filter.") []
          (codes "neutral") none false none (codes "background_solid") (codes "Unavailable"))
        0 22 6 4
    ∷ on_grid
        (stat (pos 105) (codes "Traffic Collector")
          (codes "max(openwrt_device_traffic_collector_available{"
            ++ (prom_filter ++ codes "}) or vector(0)"))
          (codes "none")
          (codes
            "Explicit collector state. A value of 0 means the profile, JSON dependency, or nftables set is unavailable.")
          [] (codes "unavailable") (some availability_mappings) false none (codes "value")
          (codes "Unavailable"))
        6 22 6 4
    ∷ on_grid
        (stat (pos 106) (codes "Traffic Packets")
          (codes "sum(rate(openwrt_device_traffic_packets_total{"
            ++ (device_filter ++ codes "}[$__rate_interval])) or vector(0)"))
          (codes "pps") (codes "Aggregate packet rate for the selected device filter.") []
          (codes "neutral") none false none (codes "background_solid") (codes "Unavailable"))
        12 22 6 4
    ∷ on_grid
        (stat (pos 107) (codes "Traffic Bytes")
          (codes "sum(rate(openwrt_device_traffic_bytes_total{"
            ++ (device_filter ++ codes "}[$__rate_interval])) or vector(0)"))
          (codes "Bps") (codes "Aggregate byte rate for the selected device filter.") []
          (codes "neutral") none false none (codes "background_solid") (codes "Unavailable"))
        18 22 6 4
    ∷ []
