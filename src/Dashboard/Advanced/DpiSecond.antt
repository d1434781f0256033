-- ===== src/Dashboard/Advanced/DpiSecond.antt =====
-- Panels of the tab "DPI and Data Quality" of `build_dashboard`, scripts/build_openwrt_advanced_dashboard.py.
use openwrt_grafana_monitor.Prelude.{List, [], false, none, pos, some, true, ◌++◌, ◌∷◌}
use openwrt_grafana_monitor.Text.{codes}
use openwrt_grafana_monitor.Dashboard.Json.{dict, lit, number, ◌⇒◌}
use openwrt_grafana_monitor.Dashboard.Panels.Values.{stat}
use openwrt_grafana_monitor.Dashboard.Queries.{limit, organize, prom_query}
use openwrt_grafana_monitor.Dashboard.Panels.Tables.{table}
use openwrt_grafana_monitor.Dashboard.Styles.{prom_filter}
use openwrt_grafana_monitor.Dashboard.Panels.Series.{timeseries}
use openwrt_grafana_monitor.Dashboard.Assemble.{Placement, on_grid}

unfoldable pub advanced_dpi_second : List Placement
advanced_dpi_second =
    on_grid
      (some (
        timeseries (pos 307) (codes "Collector Availability")
          ((prom_query
              (codes "openwrt_device_traffic_collector_available{"
                ++ (prom_filter ++ codes "} or vector(0)"))
              (codes "nftables traffic") (codes "A") (codes "time_series") false)
            ∷ (prom_query
                (codes "openwrt_wifi_mesh_collector_available{"
                  ++ (prom_filter ++ codes "} or vector(0)"))
                (codes "WiFi mesh") (codes "B") (codes "time_series") false)
            ∷ (prom_query
                (codes "openwrt_dpi_collector_available{"
                  ++ (prom_filter ++ codes "} or vector(0)"))
                (codes "DPI") (codes "C") (codes "time_series") false)
            ∷ (prom_query
                (codes "openwrt_wifi_radio_collector_available{"
                  ++ (prom_filter ++ codes "} or vector(0)"))
                (codes "WiFi radio helper") (codes "D") (codes "time_series") false)
            ∷ [])
          (codes "none")
          (codes
            "Profile availability over time. This distinguishes a disabled profile from a broken primary scrape.")
          false (pos 15) (codes "linear") none none none (codes "normal") none))
      0 17 12 8
    ∷ on_grid
        (some (
          table (pos 308) (codes "Exporter Collector Health")
            ((prom_query (codes "node_scrape_collector_success{" ++ (prom_filter ++ codes "}")) []
                (codes "A") (codes "table") true)
              ∷ [])
            (codes
              "Official Lua exporter collector success state. Investigate this before treating a missing optional metric as a dashboard defect.")
            (some (
              (organize
                (some (
                  (codes "Time")
                  ∷ (codes "__name__")
                  ∷ (codes "Value")
                  ∷ (codes "cluster")
                  ∷ (codes "endpoint")
                  ∷ (codes "instance")
                  ∷ (codes "job")
                  ∷ (codes "namespace")
                  ∷ (codes "prometheus")
                  ∷ (codes "prometheus_replica")
                  ∷ (codes "router")
                  ∷ (codes "service")
                  ∷ []))
                (some ("collector" ⇒ (lit "Collector") ∷ "Value" ⇒ (lit "Success") ∷ [])) none)
              ∷ (limit (pos 50))
              ∷ []))
            none (some (codes "Collector")) false))
        12 17 12 8
    ∷ on_grid
        (stat (pos 309) (codes "Textfile Freshness")
          (codes "max(time() - node_textfile_mtime_seconds{"
            ++ (prom_filter ++ codes "}) or vector(999999)"))
          (codes "s")
          (codes
            "Age of helper-generated textfile metrics. This is separate from Lua profile availability.")
          [] (codes "freshness") none true none (codes "background_solid") (codes "Unavailable"))
        0 25 6 5
    ∷ on_grid
        (stat (pos 310) (codes "Prometheus Scrape")
          (codes "min(up{" ++ (prom_filter ++ codes "}) or vector(0)")) (codes "none")
          (codes "Primary router scrape reachability.") [] (codes "ok_bad")
          (some (
            (dict (
              "type" ⇒ (lit "value")
              ∷ "options" ⇒ (
                  dict (
                    "1" ⇒ (
                      dict (
                        "text" ⇒ (lit "Healthy")
                        ∷ "color" ⇒ (lit "green")
                        ∷ "index" ⇒ (number 0)
                        ∷ []))
                    ∷ "0" ⇒ (
                        dict (
                          "text" ⇒ (lit "Down")
                          ∷ "color" ⇒ (lit "red")
                          ∷ "index" ⇒ (number 1)
                          ∷ []))
                    ∷ []))
              ∷ []))
            ∷ []))
          false none (codes "background_solid") (codes "Unavailable"))
        6 25 6 5
    ∷ on_grid
        (stat (pos 311) (codes "DPI Application Flow Series")
          (codes "count(openwrt_dpi_application_flows{" ++ (prom_filter ++ codes "}) or vector(0)"))
          (codes "none") (codes "Application flow series currently available from the snapshot.") []
          (codes "neutral") none false none (codes "background_solid") (codes "Unavailable"))
        12 25 6 5
    ∷ on_grid
        (stat (pos 312) (codes "Profile Metrics")
          (codes "count({__name__=~\"openwrt_(device_traffic|wifi_mesh|dpi|wifi_radio)_.*\", "
            ++ (prom_filter ++ codes "}) or vector(0)"))
          (codes "none")
          (codes
            "Current count of optional profile metric series. Use the panels above to identify which profile is absent.")
          [] (codes "neutral") none false none (codes "background_solid") (codes "Unavailable"))
        18 25 6 5
    ∷ []
