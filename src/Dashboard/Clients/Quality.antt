-- ===== src/Dashboard/Clients/Quality.antt =====
-- Panels of the tab "Data Quality" of `build_dashboard`, scripts/build_openwrt_clients_dashboard.py.
use openwrt_grafana_monitor.Prelude.{List, [], false, none, pos, some, true, ◌++◌, ◌∷◌}
use openwrt_grafana_monitor.Text.{codes}
use openwrt_grafana_monitor.Dashboard.Clients.Mappings.{
  local_mac_mappings, offload_mappings, truncation_mappings,
}
use openwrt_grafana_monitor.Dashboard.Panels.Values.{bargauge, stat}
use openwrt_grafana_monitor.Dashboard.Clients.Base.{
  client_filter, field_override, regexp_override, wifi_client_filter, wifi_signal_by_mac,
}
use openwrt_grafana_monitor.Dashboard.Styles.Mappings.{availability_mappings}
use openwrt_grafana_monitor.Dashboard.Json.{dict, list, lit, number, ◌⇒◌}
use openwrt_grafana_monitor.Dashboard.Queries.{organize, prom_query, tf}
use openwrt_grafana_monitor.Dashboard.Styles.{prom_filter}
use openwrt_grafana_monitor.Dashboard.Panels.Tables.{table}
use openwrt_grafana_monitor.Dashboard.Builder.{text_panel}
use openwrt_grafana_monitor.Dashboard.Assemble.{Placement, on_grid}

unfoldable pub client_quality : List Placement
client_quality =
    on_grid
      (some (
        text_panel (pos 300) [] (
          codes
            "## Data quality\nCollector state, joinability, and identity gaps are surfaced as first-class values. A missing join or collector is not treated as a healthy zero.")))
      0 0 24 3
    ∷ on_grid
        (some (
          table (pos 301) (codes "Collector Availability")
            ((prom_query
                (codes "openwrt_client_inventory_collector_available{"
                  ++ (prom_filter ++ codes "}"))
                [] (codes "A") (codes "table") true)
              ∷ (prom_query
                  (codes "node_scrape_collector_success{"
                    ++ (prom_filter ++ codes ", collector=\"client_inventory\"}"))
                  [] (codes "B") (codes "table") true)
              ∷ (prom_query
                  (codes "openwrt_client_inventory_truncated{" ++ (prom_filter ++ codes "}")) []
                  (codes "C") (codes "table") true)
              ∷ (prom_query (codes "openwrt_flow_offload_enabled{" ++ (prom_filter ++ codes "}")) []
                  (codes "D") (codes "table") true)
              ∷ [])
            (codes
              "Raw availability and offload-state series needed to trust or reject the client dashboard values.")
            (some (
              (tf (codes "merge") none)
              ∷ (organize
                  (some (
                    (codes "Time")
                    ∷ (codes "__name__")
                    ∷ (codes "cluster")
                    ∷ (codes "endpoint")
                    ∷ (codes "instance")
                    ∷ (codes "job")
                    ∷ (codes "namespace")
                    ∷ (codes "prometheus")
                    ∷ (codes "prometheus_replica")
                    ∷ (codes "service")
                    ∷ []))
                  (some (
                    "mode" ⇒ (lit "Offload Mode")
                    ∷ "collector" ⇒ (lit "Collector")
                    ∷ "router" ⇒ (lit "Router")
                    ∷ "Value #A" ⇒ (lit "Inventory Available")
                    ∷ "Value #B" ⇒ (lit "Scrape Success")
                    ∷ "Value #C" ⇒ (lit "Truncated")
                    ∷ "Value #D" ⇒ (lit "Offload Enabled")
                    ∷ []))
                  (some (
                    "Router" ⇒ (number 0)
                    ∷ "Collector" ⇒ (number 1)
                    ∷ "Offload Mode" ⇒ (number 2)
                    ∷ "Inventory Available" ⇒ (number 3)
                    ∷ "Scrape Success" ⇒ (number 4)
                    ∷ "Truncated" ⇒ (number 5)
                    ∷ "Offload Enabled" ⇒ (number 6)
                    ∷ [])))
              ∷ []))
            (some (
              (regexp_override (codes "/Inventory Available|Scrape Success/") (
                (dict (
                  "id" ⇒ (lit "custom.cellOptions")
                  ∷ "value" ⇒ (dict ("type" ⇒ (lit "color-background") ∷ []))
                  ∷ []))
                ∷ (dict ("id" ⇒ (lit "mappings") ∷ "value" ⇒ (list availability_mappings) ∷ []))
                ∷ []))
              ∷ (field_override (codes "Truncated") (
                  (dict (
                    "id" ⇒ (lit "custom.cellOptions")
                    ∷ "value" ⇒ (dict ("type" ⇒ (lit "color-background") ∷ []))
                    ∷ []))
                  ∷ (dict ("id" ⇒ (lit "mappings") ∷ "value" ⇒ (list truncation_mappings) ∷ []))
                  ∷ []))
              ∷ (field_override (codes "Offload Enabled") (
                  (dict (
                    "id" ⇒ (lit "custom.cellOptions")
                    ∷ "value" ⇒ (dict ("type" ⇒ (lit "color-background") ∷ []))
                    ∷ []))
                  ∷ (dict ("id" ⇒ (lit "mappings") ∷ "value" ⇒ (list offload_mappings) ∷ []))
                  ∷ []))
              ∷ []))
            (some (codes "Router")) false))
        0 3 24 8
    ∷ on_grid
        (stat (pos 302) (codes "No Hostname")
          (codes "count(openwrt_client_info{"
            ++ (client_filter ++ codes ", hostname=~\"unknown_.*\"}) or vector(0)"))
          (codes "none")
          (codes
            "Clients without a usable hostname remain visible in the inventory and retain MAC-keyed nlbwmon traffic accounting.")
          [] (codes "neutral") none true none (codes "value") (codes "Unavailable"))
        0 11 4 4
    ∷ on_grid
        (stat (pos 303) (codes "Randomized / Local")
          (codes "count(openwrt_client_info{"
            ++ (client_filter ++ codes ", mac_type=\"local\"}) or vector(0)"))
          (codes "none")
          (codes
            "Clients using a locally administered MAC address. This includes privacy-randomized and synthetic addresses.")
          [] (codes "neutral") none true none (codes "value") (codes "Unavailable"))
        4 11 4 4
    ∷ on_grid
        (stat (pos 304) (codes "Missing IP")
          (codes "count(openwrt_client_info{"
            ++ (client_filter ++ codes ", ip=\"\"}) or vector(0)"))
          (codes "none")
          (codes "Inventory rows without an IPv4 address. This should remain low and explicit.") []
          (codes "neutral") none true none (codes "value") (codes "Unavailable"))
        8 11 4 4
    ∷ on_grid
        (stat (pos 305) (codes "WiFi Missing SSID")
          (codes "count(openwrt_client_info{"
            ++ (wifi_client_filter ++ codes ", ssid=\"\"}) or vector(0)"))
          (codes "none") (codes "WiFi clients whose association data is missing an SSID.") []
          (codes "neutral") none true none (codes "value") (codes "Unavailable"))
        12 11 4 4
    ∷ on_grid
        (stat (pos 306) (codes "WiFi Missing Band")
          (codes "count(openwrt_client_info{"
            ++ (wifi_client_filter ++ codes ", band=\"\"}) or vector(0)"))
          (codes "none") (codes "WiFi clients whose association data is missing a radio band.") []
          (codes "neutral") none true none (codes "value") (codes "Unavailable"))
        16 11 4 4
    ∷ on_grid
        (stat (pos 307) (codes "No Signal Join")
          (codes "count(openwrt_client_info{"
            ++ (wifi_client_filter
                ++ (codes "} unless on(mac) " ++ (wifi_signal_by_mac ++ codes ") or vector(0)"))))
          (codes "none")
          (codes
            "Associated WiFi clients without a matching signal sample after MAC-case normalization.")
          [] (codes "neutral") none true none (codes "value") (codes "Unavailable"))
        20 11 4 4
    ∷ on_grid
        (bargauge (pos 308) (codes "IPv6 Address Count")
          ((prom_query
              (codes "openwrt_client_ipv6_addresses{"
                ++ (prom_filter
                    ++ (codes "} * on(mac) group_left(hostname) openwrt_client_info{"
                        ++ (client_filter ++ codes "}"))))
              (codes "{{hostname}}") (codes "A") (codes "time_series") false)
            ∷ [])
          (codes "none")
          (codes
            "IPv6 presence is counted, not exposed as address labels, avoiding privacy-address churn.")
          (codes "neutral") none none (codes "thresholds")
          (some ((tf (codes "limit") (some ("limitField" ⇒ (number 25) ∷ []))) ∷ [])) none false)
        0 15 12 7
    ∷ on_grid
        (bargauge (pos 309) (codes "Local MAC Clients")
          ((prom_query
              (codes "openwrt_client_info{" ++ (client_filter ++ codes ", mac_type=\"local\"}"))
              (codes "{{hostname}}") (codes "A") (codes "time_series") false)
            ∷ [])
          (codes "none")
          (codes
            "Clients flagged by mac_type=local. This replaces OUI/vendor lookup and avoids fingerprinting randomised addresses.")
          (codes "neutral") (some local_mac_mappings) none (codes "thresholds")
          (some ((tf (codes "limit") (some ("limitField" ⇒ (number 25) ∷ []))) ∷ [])) none false)
        12 15 12 7
    ∷ []
