-- ===== src/Dashboard/Advanced/DpiFirst.antt =====
-- Panels of the tab "DPI and Data Quality" of `build_dashboard`, scripts/build_openwrt_advanced_dashboard.py.
use openwrt_grafana_monitor.Prelude.{List, [], false, none, pos, some, ◌++◌, ◌∷◌}
use openwrt_grafana_monitor.Text.{codes}
use openwrt_grafana_monitor.Dashboard.Queries.{limit, prom_query}
use openwrt_grafana_monitor.Dashboard.Panels.Values.{bargauge, stat}
use openwrt_grafana_monitor.Dashboard.Styles.{prom_filter}
use openwrt_grafana_monitor.Dashboard.Advanced.Base.{availability}
use openwrt_grafana_monitor.Dashboard.Builder.{text_panel}
use openwrt_grafana_monitor.Dashboard.Assemble.{Placement, on_grid}

unfoldable pub advanced_dpi_first : List Placement
advanced_dpi_first =
    on_grid
      (some (
        text_panel (pos 300) [] (
          codes
            "## DPI and data quality\nThe DPI collector reads `/var/run/netifyd/status.json` and exports only top bounded application/protocol entries. Netifyd does not replace Prometheus traffic counters; it adds application context when installed.")))
      0 0 24 4
    ∷ on_grid
        (availability (pos 301) (codes "DPI Collector") (codes "openwrt_dpi_collector_available")
          (codes
            "1 means the router read a fresh Netifyd snapshot and completed the scrape. 0 means missing, stale, or failed - all explicit unavailable states.")
          (codes "dpi_netifyd"))
        0 4 6 4
    ∷ on_grid
        (stat (pos 302) (codes "Active DPI Flows")
          (codes "openwrt_dpi_active_flows{" ++ (prom_filter ++ codes "} or vector(0)"))
          (codes "none") (codes "Current active flows from the Netifyd snapshot.") []
          (codes "neutral") none false none (codes "background_solid") (codes "Unavailable"))
        6 4 6 4
    ∷ on_grid
        (stat (pos 303) (codes "DPI Devices")
          (codes "openwrt_dpi_devices{" ++ (prom_filter ++ codes "} or vector(0)")) (codes "none")
          (codes "Current devices reported in the Netifyd snapshot.") [] (codes "neutral") none
          false none (codes "background_solid") (codes "Unavailable"))
        12 4 6 4
    ∷ on_grid
        (stat (pos 304) (codes "Application Series")
          (codes "count(openwrt_dpi_application_bytes{" ++ (prom_filter ++ codes "}) or vector(0)"))
          (codes "none") (codes "Bounded application series currently exported by the router.") []
          (codes "neutral") none false none (codes "background_solid") (codes "Unavailable"))
        18 4 6 4
    ∷ on_grid
        (bargauge (pos 305) (codes "Top Applications by Bytes")
          ((prom_query
              (codes "topk(15, openwrt_dpi_application_bytes{" ++ (prom_filter ++ codes "})"))
              (codes "{{application}}") (codes "A") (codes "time_series") false)
            ∷ [])
          (codes "bytes")
          (codes
            "Top bounded application byte values from Netifyd. Snapshot values may move down when flows expire.")
          (codes "neutral") none none (codes "thresholds") (some ((limit (pos 15)) ∷ [])) none
          false)
        0 8 12 9
    ∷ on_grid
        (bargauge (pos 306) (codes "Top Protocols by Flows")
          ((prom_query (codes "topk(15, openwrt_dpi_protocol_flows{" ++ (prom_filter ++ codes "})"))
              (codes "{{protocol}}") (codes "A") (codes "time_series") false)
            ∷ [])
          (codes "none") (codes "Top bounded protocol flow counts from Netifyd.") (codes "neutral")
          none none (codes "thresholds") (some ((limit (pos 15)) ∷ [])) none false)
        12 8 12 9
    ∷ []
