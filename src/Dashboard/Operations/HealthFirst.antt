-- ===== src/Dashboard/Operations/HealthFirst.antt =====
-- Panels of the tab "Router Health" of `build_dashboard`, scripts/build_openwrt_operations_dashboard.py.
use openwrt_grafana_monitor.Prelude.{List, [], false, none, pos, some, true, ◌++◌, ◌∷◌}
use openwrt_grafana_monitor.Text.{codes}
use openwrt_grafana_monitor.Dashboard.Queries.{prom_query}
use openwrt_grafana_monitor.Dashboard.Panels.Series.{timeseries}
use openwrt_grafana_monitor.Dashboard.Styles.{prom_filter}
use openwrt_grafana_monitor.Dashboard.Panels.Values.{gauge}
use openwrt_grafana_monitor.Dashboard.Builder.{text_panel}
use openwrt_grafana_monitor.Dashboard.Assemble.{Placement, on_grid}

unfoldable pub health_panels_first : List Placement
health_panels_first =
    on_grid
      (some (
        text_panel (pos 400) [] (
          codes
            "## Router Health\nCapacity and exporter health. Thresholds are tied to actual utilization or scrape freshness; no decorative limits.")))
      0 0 24 3
    ∷ on_grid
        (gauge (pos 401) (codes "CPU Busy")
          (codes "1 - avg(rate(node_cpu_seconds_total{"
            ++ (prom_filter ++ codes ", mode=\"idle\"}[$__rate_interval]))"))
          (codes "CPU busy fraction across all cores.") (codes "capacity"))
        0 3 6 7
    ∷ on_grid
        (gauge (pos 402) (codes "Memory Used")
          (codes "1 - (node_memory_MemAvailable_bytes{"
            ++ (prom_filter
                ++ (codes "} / node_memory_MemTotal_bytes{" ++ (prom_filter ++ codes "})"))))
          (codes "Memory utilization using MemAvailable.") (codes "capacity"))
        6 3 6 7
    ∷ on_grid
        (gauge (pos 403) (codes "Overlay Flash Used")
          (codes "openwrt_filesystem_used_percent{"
            ++ (prom_filter ++ codes ", mount=\"/overlay\"} / 100"))
          (codes "Writable overlay/rootfs_data utilization.") (codes "capacity"))
        12 3 6 7
    ∷ on_grid
        (gauge (pos 404) (codes "File Descriptors Used")
          (codes "node_filefd_allocated{"
            ++ (prom_filter ++ (codes "} / node_filefd_maximum{" ++ (prom_filter ++ codes "}"))))
          (codes "Open file descriptor utilization.") (codes "capacity"))
        18 3 6 7
    ∷ on_grid
        (some (
          timeseries (pos 405) (codes "CPU Usage by Mode")
            ((prom_query
                (codes "sum(rate(node_cpu_seconds_total{"
                  ++ (prom_filter ++ codes ", mode=\"user\"}[$__rate_interval]))"))
                (codes "user") (codes "A") (codes "time_series") false)
              ∷ (prom_query
                  (codes "sum(rate(node_cpu_seconds_total{"
                    ++ (prom_filter ++ codes ", mode=\"system\"}[$__rate_interval]))"))
                  (codes "system") (codes "B") (codes "time_series") false)
              ∷ (prom_query
                  (codes "sum(rate(node_cpu_seconds_total{"
                    ++ (prom_filter ++ codes ", mode=\"softirq\"}[$__rate_interval]))"))
                  (codes "softirq") (codes "C") (codes "time_series") false)
              ∷ (prom_query
                  (codes "sum(rate(node_cpu_seconds_total{"
                    ++ (prom_filter ++ codes ", mode=\"iowait\"}[$__rate_interval]))"))
                  (codes "iowait") (codes "D") (codes "time_series") false)
              ∷ [])
            (codes "none") (codes "CPU time by mode. softirq is normal router packet processing.")
            true (pos 45) (codes "linear") none none none (codes "normal") none))
        0 10 12 8
    ∷ on_grid
        (some (
          timeseries (pos 406) (codes "Load Average")
            ((prom_query (codes "node_load1{" ++ (prom_filter ++ codes "}")) (codes "1 min")
                (codes "A") (codes "time_series") false)
              ∷ (prom_query (codes "node_load5{" ++ (prom_filter ++ codes "}")) (codes "5 min")
                  (codes "B") (codes "time_series") false)
              ∷ (prom_query (codes "node_load15{" ++ (prom_filter ++ codes "}")) (codes "15 min")
                  (codes "C") (codes "time_series") false)
              ∷ [])
            (codes "none")
            (codes "System load averages. Compare with router CPU thread count for saturation.")
            false (pos 15) (codes "linear") none none none (codes "normal") none))
        12 10 12 8
    ∷ []
