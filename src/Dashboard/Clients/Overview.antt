-- ===== src/Dashboard/Clients/Overview.antt =====
-- Panels of the tab "Overview" of `build_dashboard`, scripts/build_openwrt_clients_dashboard.py.
use openwrt_grafana_monitor.Prelude.{List, [], false, none, pos, some, true, ◌++◌, ◌∷◌}
use openwrt_grafana_monitor.Text.{codes}
use openwrt_grafana_monitor.Dashboard.Json.{number, ◌⇒◌}
use openwrt_grafana_monitor.Dashboard.Queries.{prom_query, tf}
use openwrt_grafana_monitor.Dashboard.Panels.Values.{bargauge, stat}
use openwrt_grafana_monitor.Dashboard.Clients.Mappings.{
  conntrack_state_mappings, offload_mappings, truncation_mappings,
}
use openwrt_grafana_monitor.Dashboard.Clients.Base.{
  availability_expr, client_filter, conntrack_state, wifi_client_filter,
}
use openwrt_grafana_monitor.Dashboard.Styles.{prom_filter}
use openwrt_grafana_monitor.Dashboard.Styles.Mappings.{availability_mappings}
use openwrt_grafana_monitor.Dashboard.Builder.{text_panel}
use openwrt_grafana_monitor.Dashboard.Assemble.{Placement, on_grid}

unfoldable pub client_overview : List Placement
client_overview =
    on_grid
      (some (
        text_panel (pos 1) [] (
          codes
            "## Client inventory\nUnified client identity from the OpenWrt clients profile. Missing collectors and unavailable joins are rendered explicitly instead of as zeros.")))
      0 0 24 3
    ∷ on_grid
        (stat (pos 2) (codes "Inventory Collector")
          (availability_expr (codes "openwrt_client_inventory_collector_available")
            (codes "client_inventory"))
          (codes "none")
          (codes
            "Collector availability gated by both the client inventory flag and the Lua exporter's per-collector scrape success.")
          [] (codes "unavailable") (some availability_mappings) false none (codes "value")
          (codes "Unavailable"))
        0 3 5 4
    ∷ on_grid
        (stat (pos 3) (codes "Clients")
          (codes "count(openwrt_client_info{" ++ (client_filter ++ codes "}) or vector(0)"))
          (codes "none") (codes "One current identity series per discovered client.") []
          (codes "neutral") none true none (codes "value") (codes "Unavailable"))
        5 3 5 4
    ∷ on_grid
        (stat (pos 4) (codes "WiFi Clients")
          (codes "count(openwrt_client_info{" ++ (wifi_client_filter ++ codes "}) or vector(0)"))
          (codes "none")
          (codes
            "Clients currently associated to a WiFi interface according to the clients profile.")
          [] (codes "neutral") none true none (codes "value") (codes "Unavailable"))
        10 3 5 4
    ∷ on_grid
        (stat (pos 5) (codes "Inventory Truncation")
          (codes "max(openwrt_client_inventory_truncated{"
            ++ (prom_filter ++ codes "}) or vector(0)"))
          (codes "none")
          (codes
            "If this is truncated, the router hit CLIENT_INVENTORY_MAX and client rows are incomplete.")
          [] (codes "ok_bad") (some truncation_mappings) false none (codes "value")
          (codes "Unavailable"))
        15 3 4 4
    ∷ on_grid
        (stat (pos 6) (codes "Flow Offload")
          (codes "max(openwrt_flow_offload_enabled{" ++ (prom_filter ++ codes "}) or vector(0)"))
          (codes "none")
          (codes
            "When software or hardware flow offload is enabled, nftables and conntrack traffic accounting can under-report or read near zero.")
          [] (codes "ok_bad") (some offload_mappings) false none (codes "value")
          (codes "Unavailable"))
        19 3 5 4
    ∷ on_grid
        (stat (pos 11) (codes "Conntrack Entries") conntrack_state (codes "none")
          (codes
            "Current per-client conntrack-table occupancy is suppressed while flow-offload entry semantics remain unverified on this router. This is a state count, not conntrack byte accounting.")
          [] (codes "unavailable") (some conntrack_state_mappings) false none (codes "value")
          (codes "Unavailable"))
        0 14 6 4
    ∷ on_grid
        (bargauge (pos 7) (codes "Connection Split")
          ((prom_query
              (codes "count by(connection) (openwrt_client_info{"
                ++ (client_filter ++ codes "}) or vector(0)"))
              (codes "{{connection}}") (codes "A") (codes "time_series") false)
            ∷ [])
          (codes "none")
          (codes
            "Client count by connection type. Unknown is an explicit state from the collector, not a dashboard error.")
          (codes "neutral") none none (codes "thresholds")
          (some ((tf (codes "labelsToFields") none) ∷ [])) none false)
        0 7 8 7
    ∷ on_grid
        (bargauge (pos 8) (codes "Clients by Network")
          ((prom_query
              (codes "count by(network) (openwrt_client_info{"
                ++ (client_filter ++ codes "}) or vector(0)"))
              (codes "{{network}}") (codes "A") (codes "time_series") false)
            ∷ [])
          (codes "none")
          (codes "Client count by logical OpenWrt network label from the clients profile.")
          (codes "neutral") none none (codes "thresholds")
          (some ((tf (codes "labelsToFields") none) ∷ [])) none false)
        8 7 8 7
    ∷ on_grid
        (bargauge (pos 9) (codes "Clients by SSID")
          ((prom_query
              (codes "topk(10, count by(ssid, band) (openwrt_client_info{"
                ++ (client_filter ++ codes ", ssid!=\"\"}))"))
              (codes "{{ssid}} {{band}}") (codes "A") (codes "time_series") false)
            ∷ [])
          (codes "none")
          (codes
            "Associated WiFi clients by SSID and band. Wired clients intentionally do not appear here.")
          (codes "neutral") none none (codes "thresholds")
          (some (
            (tf (codes "labelsToFields") none)
            ∷ (tf (codes "limit") (some ("limitField" ⇒ (number 10) ∷ [])))
            ∷ []))
          none false)
        16 7 8 7
    ∷ on_grid
        (some (
          text_panel (pos 10) [] (
            codes
              "## Traffic accounting\nPer-client traffic is keyed directly by MAC from nlbwmon. When software or hardware flow offload is enabled, every nlbwmon traffic panel suppresses its values and the accounting state reports unreliable rather than displaying plausible zeros.")))
        6 14 18 4
    ∷ []
