-- ===== src/Dashboard/Operations/ClientsFirst.antt =====
-- Panels of the tab "Client Insights" of `build_dashboard`, scripts/build_openwrt_operations_dashboard.py.
use openwrt_grafana_monitor.Prelude.{List, [], false, none, pos, some, true, ◌++◌, ◌∷◌}
use openwrt_grafana_monitor.Text.{codes, replace}
use openwrt_grafana_monitor.Dashboard.Queries.{limit, prom_query}
use openwrt_grafana_monitor.Dashboard.Panels.Values.{bargauge, stat}
use openwrt_grafana_monitor.Dashboard.Operations.Rates.{dl, ul}
use openwrt_grafana_monitor.Dashboard.Styles.{prom_filter}
use openwrt_grafana_monitor.Dashboard.Builder.{text_panel}
use openwrt_grafana_monitor.Dashboard.Assemble.{Placement, on_grid}

unfoldable pub clients_panels_first : List Placement
clients_panels_first =
    on_grid
      (some (
        text_panel (pos 800) [] (
          codes
            "## Client Insights\nWho is on the network and what they are doing. Per-device upload/download comes from the nftables traffic profile (hostnames from DHCP leases). When the traffic profile is not installed these panels are empty rather than wrong — the device table still lists every known client. Per-remote-destination attribution (\"who talked to what\") is not sourced from NAT conntrack accounting because that stream has unbounded cardinality; use the optional NetFlow profile when that detail is required.")))
      0 0 24 3
    ∷ on_grid
        (stat (pos 801) (codes "Tracked Clients")
          (codes "count(openwrt_device_info{" ++ (prom_filter ++ codes "}) or vector(0)"))
          (codes "none")
          (codes
            "Distinct client identities currently tracked by the per-device traffic collector.")
          [] (codes "neutral") none true none (codes "value") (codes "Unavailable"))
        0 3 6 4
    ∷ on_grid
        (stat (pos 802) (codes "Total Download Rate")
          (codes "("
            ++ (replace (codes "sum by(device) ") (codes "sum ") dl ++ codes ") or vector(0)"))
          (codes "Bps") (codes "Aggregate download rate across all tracked clients right now.") []
          (codes "neutral") none true none (codes "value") (codes "Unavailable"))
        6 3 6 4
    ∷ on_grid
        (stat (pos 803) (codes "Total Upload Rate")
          (codes "("
            ++ (replace (codes "sum by(device) ") (codes "sum ") ul ++ codes ") or vector(0)"))
          (codes "Bps") (codes "Aggregate upload rate across all tracked clients right now.") []
          (codes "neutral") none true none (codes "value") (codes "Unavailable"))
        12 3 6 4
    ∷ on_grid
        (stat (pos 804) (codes "WiFi Clients")
          (codes "sum(wifi_stations{" ++ (prom_filter ++ codes "}) or vector(0)")) (codes "none")
          (codes "Associated WiFi stations across all radios.") [] (codes "neutral") none true none
          (codes "value") (codes "Unavailable"))
        18 3 6 4
    ∷ on_grid
        (bargauge (pos 805) (codes "Top Clients by Download")
          ((prom_query (codes "topk(10, " ++ (dl ++ codes ")")) (codes "{{device}}") (codes "A")
              (codes "time_series") false)
            ∷ [])
          (codes "Bps")
          (codes
            "Bounded top-10 clients by current download rate. Descriptive ranking, not a health score.")
          (codes "neutral") none none (codes "thresholds") (some ((limit (pos 10)) ∷ [])) none
          false)
        0 7 12 9
    ∷ []
