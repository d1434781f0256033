-- ===== src/Dashboard/Operations/HealthSecond.antt =====
-- Panels of the tab "Router Health" of `build_dashboard`, scripts/build_openwrt_operations_dashboard.py.
use openwrt_grafana_monitor.Prelude.{List, [], false, none, pos, some, true, ◌++◌, ◌∷◌}
use openwrt_grafana_monitor.Text.{codes}
use openwrt_grafana_monitor.Dashboard.Json.{lit, number, ◌⇒◌}
use openwrt_grafana_monitor.Dashboard.Queries.{organize, prom_query}
use openwrt_grafana_monitor.Dashboard.Panels.Tables.{table}
use openwrt_grafana_monitor.Dashboard.Panels.Values.{stat}
use openwrt_grafana_monitor.Dashboard.Styles.{color_override, prom_filter, yellow}
use openwrt_grafana_monitor.Dashboard.Panels.Series.{timeseries}
use openwrt_grafana_monitor.Dashboard.Assemble.{Placement, on_grid}

unfoldable pub health_panels_second : List Placement
health_panels_second =
    on_grid
      (some (
        timeseries (pos 407) (codes "Memory Breakdown")
          ((prom_query
              (codes "node_memory_MemTotal_bytes{"
                ++ (prom_filter
                    ++ (codes "} - node_memory_MemAvailable_bytes{" ++ (prom_filter ++ codes "}"))))
              (codes "Used") (codes "A") (codes "time_series") false)
            ∷ (prom_query (codes "node_memory_MemAvailable_bytes{" ++ (prom_filter ++ codes "}"))
                (codes "Available") (codes "B") (codes "time_series") false)
            ∷ (prom_query
                (codes "node_memory_Buffers_bytes{"
                  ++ (prom_filter
                      ++ (codes "} + node_memory_Cached_bytes{" ++ (prom_filter ++ codes "}"))))
                (codes "Buffers+Cache") (codes "C") (codes "time_series") false)
            ∷ [])
          (codes "bytes") (codes "RAM breakdown. Buffers/cache are generally reclaimable.") true
          (pos 40) (codes "linear") none none none (codes "normal") none))
      0 18 12 8
    ∷ on_grid
        (some (
          timeseries (pos 408) (codes "Conntrack Sessions vs Limit")
            ((prom_query (codes "node_nf_conntrack_entries{" ++ (prom_filter ++ codes "}"))
                (codes "Active sessions") (codes "A") (codes "time_series") false)
              ∷ (prom_query (codes "node_nf_conntrack_entries_limit{" ++ (prom_filter ++ codes "}"))
                  (codes "Limit") (codes "B") (codes "time_series") false)
              ∷ [])
            (codes "none")
            (codes
              "Conntrack active sessions and configured limit. Utilization percentage is shown in the gauges and hero stats.")
            false (pos 15) (codes "linear") (some ((color_override (codes "Limit") yellow) ∷ []))
            none none (codes "normal") none))
        12 18 12 8
    ∷ on_grid
        (stat (pos 409) (codes "CPU Temperature")
          (codes "max(node_thermal_zone_temp{"
            ++ (prom_filter
                ++ (codes "}) or max(node_hwmon_temp_celsius{" ++ (prom_filter ++ codes "})"))))
          (codes "celsius") (codes "Temperature from optional thermal/hwmon collectors.") []
          (codes "neutral") none true none (codes "background_solid") (codes "Unavailable"))
        0 26 6 5
    ∷ on_grid
        (stat (pos 410) (codes "Reboots in Range")
          (codes "max(changes(node_boot_time_seconds{"
            ++ (prom_filter ++ codes "}[$__range])) or vector(0)"))
          (codes "none") (codes "Boot-time changes in the selected time range.") [] (codes "ok_bad")
          none false none (codes "background_solid") (codes "Unavailable"))
        6 26 6 5
    ∷ on_grid
        (stat (pos 411) (codes "Failed Collectors")
          (codes "sum(1 - node_scrape_collector_success{"
            ++ (prom_filter ++ codes "}) or vector(0)"))
          (codes "none") (codes "Exporter collectors reporting failure. Zero is explicit.") []
          (codes "ok_bad") none false none (codes "background_solid") (codes "Unavailable"))
        12 26 6 5
    ∷ on_grid
        (stat (pos 412) (codes "Textfile Age")
          (codes "max(time() - node_textfile_mtime_seconds{"
            ++ (prom_filter ++ codes "}) or vector(999999)"))
          (codes "s")
          (codes
            "Age of the oldest custom textfile metric. The slowest helpers (filesystem, inodes) run every 10 minutes, so a healthy value cycles up to about 10 minutes; yellow past 11 minutes indicates a genuinely missed run.")
          [] (codes "freshness") none true none (codes "background_solid") (codes "Unavailable"))
        18 26 6 5
    ∷ on_grid
        (some (
          table (pos 413) (codes "Router Firmware")
            ((prom_query (codes "node_openwrt_info{" ++ (prom_filter ++ codes "}")) [] (codes "A")
                (codes "table") true)
              ∷ [])
            (codes "Firmware and hardware identity without scrape plumbing.")
            (some (
              (organize
                (some (
                  (codes "Time")
                  ∷ (codes "__name__")
                  ∷ (codes "Value")
                  ∷ (codes "cluster")
                  ∷ (codes "endpoint")
                  ∷ (codes "instance")
                  ∷ (codes "job")
                  ∷ (codes "namespace")
                  ∷ (codes "prometheus")
                  ∷ (codes "prometheus_replica")
                  ∷ (codes "router")
                  ∷ (codes "service")
                  ∷ []))
                (some (
                  "board_name" ⇒ (lit "Board")
                  ∷ "model" ⇒ (lit "Model")
                  ∷ "release" ⇒ (lit "OpenWrt Release")
                  ∷ "revision" ⇒ (lit "Revision")
                  ∷ "target" ⇒ (lit "Target")
                  ∷ "system" ⇒ (lit "CPU")
                  ∷ []))
                (some (
                  "Board" ⇒ (number 0)
                  ∷ "Model" ⇒ (number 1)
                  ∷ "OpenWrt Release" ⇒ (number 2)
                  ∷ "Revision" ⇒ (number 3)
                  ∷ "Target" ⇒ (number 4)
                  ∷ "CPU" ⇒ (number 5)
                  ∷ [])))
              ∷ []))
            none none true))
        0 31 12 6
    ∷ []
