-- ===== src/Dashboard/Clients/Inventory.antt =====
-- Panels of the tab "Clients" of `build_dashboard`, scripts/build_openwrt_clients_dashboard.py.
use openwrt_grafana_monitor.Prelude.{List, [], false, negsuc, none, pos, some, true, ◌++◌, ◌∷◌}
use openwrt_grafana_monitor.Text.{codes}
use openwrt_grafana_monitor.Dashboard.Styles.{gray, green, prom_filter, thresholds}
use openwrt_grafana_monitor.Dashboard.Json.{dict, int, list, lit, number, str, ◌⇒◌}
use openwrt_grafana_monitor.Dashboard.Panels.Values.{bargauge}
use openwrt_grafana_monitor.Dashboard.Clients.Base.{
  client_filter, field_override, regexp_override, traffic_accounting_state, traffic_in, traffic_out,
  trusted_conntrack, wifi_client_filter, wifi_signal_by_mac,
}
use openwrt_grafana_monitor.Dashboard.Panels.Series.{timeseries}
use openwrt_grafana_monitor.Dashboard.Clients.Mappings.{
  client_status_mappings, ipv6_mappings, traffic_state_mappings,
}
use openwrt_grafana_monitor.Dashboard.Queries.{organize, prom_query, sort_by, tf}
use openwrt_grafana_monitor.Dashboard.Panels.Tables.{table}
use openwrt_grafana_monitor.Dashboard.Assemble.{Placement, on_grid}

unfoldable pub client_clients : List Placement
client_clients =
    on_grid
      (some (
        table (pos 100) (codes "Client Inventory")
          ((prom_query (codes "openwrt_client_info{" ++ (client_filter ++ codes "}")) [] (codes "A")
              (codes "table") true)
            ∷ (prom_query (codes "openwrt_client_up{" ++ (prom_filter ++ codes "}")) [] (codes "B")
                (codes "table") true)
            ∷ (prom_query wifi_signal_by_mac [] (codes "C") (codes "table") true)
            ∷ (prom_query
                (codes "openwrt_client_lease_expiry_seconds{"
                  ++ (prom_filter ++ codes "} - time()"))
                [] (codes "D") (codes "table") true)
            ∷ (prom_query (codes "openwrt_client_ipv6_addresses{" ++ (prom_filter ++ codes "}")) []
                (codes "E") (codes "table") true)
            ∷ (prom_query traffic_in [] (codes "F") (codes "table") true)
            ∷ (prom_query traffic_out [] (codes "G") (codes "table") true)
            ∷ (prom_query
                (codes "openwrt_client_info{"
                  ++ (client_filter
                      ++ (codes "} * 0 + on() group_left() ("
                          ++ (traffic_accounting_state ++ codes ")"))))
                [] (codes "H") (codes "table") true)
            ∷ (prom_query
                (trusted_conntrack
                  (codes "openwrt_client_conntrack_entries{" ++ (prom_filter ++ codes "}")))
                [] (codes "I") (codes "table") true)
            ∷ [])
          (codes
            "One row per openwrt_client_info client. Traffic is nlbwmon per-MAC accounting; the state column is explicit when collection is absent or flow offload makes conntrack accounting unreliable.")
          (some (
            (tf (codes "joinByField")
              (some ("byField" ⇒ (lit "mac") ∷ "mode" ⇒ (lit "outer") ∷ [])))
            ∷ (organize
                (some (
                  (codes "Time")
                  ∷ (codes "__name__")
                  ∷ (codes "Value #A")
                  ∷ (codes "cluster")
                  ∷ (codes "endpoint")
                  ∷ (codes "instance")
                  ∷ (codes "job")
                  ∷ (codes "namespace")
                  ∷ (codes "prometheus")
                  ∷ (codes "prometheus_replica")
                  ∷ (codes "service")
                  ∷ []))
                (some (
                  "hostname" ⇒ (lit "Hostname")
                  ∷ "mac" ⇒ (lit "MAC")
                  ∷ "ip" ⇒ (lit "IP")
                  ∷ "router" ⇒ (lit "Router")
                  ∷ "ap" ⇒ (lit "AP")
                  ∷ "ssid" ⇒ (lit "SSID")
                  ∷ "band" ⇒ (lit "Band")
                  ∷ "connection" ⇒ (lit "Connection")
                  ∷ "network" ⇒ (lit "Network")
                  ∷ "mac_type" ⇒ (lit "MAC Type")
                  ∷ "has_ipv6" ⇒ (lit "IPv6")
                  ∷ "ifname" ⇒ (lit "Interface")
                  ∷ "static" ⇒ (lit "Static")
                  ∷ "Value #B" ⇒ (lit "Status")
                  ∷ "Value #C" ⇒ (lit "Signal dBm")
                  ∷ "Value #D" ⇒ (lit "Lease Remaining")
                  ∷ "Value #E" ⇒ (lit "IPv6 Count")
                  ∷ "Value #F" ⇒ (lit "Inbound")
                  ∷ "Value #G" ⇒ (lit "Outbound")
                  ∷ "Value #H" ⇒ (lit "Traffic Accounting")
                  ∷ "Value #I" ⇒ (lit "Conntrack Entries")
                  ∷ []))
                (some (
                  "Hostname" ⇒ (number 0)
                  ∷ "MAC" ⇒ (number 1)
                  ∷ "IP" ⇒ (number 2)
                  ∷ "Router" ⇒ (number 3)
                  ∷ "AP" ⇒ (number 4)
                  ∷ "SSID" ⇒ (number 5)
                  ∷ "Band" ⇒ (number 6)
                  ∷ "Connection" ⇒ (number 7)
                  ∷ "Network" ⇒ (number 8)
                  ∷ "MAC Type" ⇒ (number 9)
                  ∷ "IPv6" ⇒ (number 10)
                  ∷ "IPv6 Count" ⇒ (number 11)
                  ∷ "Status" ⇒ (number 12)
                  ∷ "Signal dBm" ⇒ (number 13)
                  ∷ "Lease Remaining" ⇒ (number 14)
                  ∷ "Inbound" ⇒ (number 15)
                  ∷ "Outbound" ⇒ (number 16)
                  ∷ "Traffic Accounting" ⇒ (number 17)
                  ∷ "Conntrack Entries" ⇒ (number 18)
                  ∷ "Interface" ⇒ (number 19)
                  ∷ "Static" ⇒ (number 20)
                  ∷ [])))
            ∷ (sort_by (codes "Hostname") false)
            ∷ []))
          (some (
            (field_override (codes "Status") (
              (dict (
                "id" ⇒ (lit "custom.cellOptions")
                ∷ "value" ⇒ (dict ("type" ⇒ (lit "color-background") ∷ []))
                ∷ []))
              ∷ (dict ("id" ⇒ (lit "mappings") ∷ "value" ⇒ (list client_status_mappings) ∷ []))
              ∷ []))
            ∷ (field_override (codes "Signal dBm") (
                (dict ("id" ⇒ (lit "unit") ∷ "value" ⇒ (lit "dBm") ∷ []))
                ∷ (dict (
                    "id" ⇒ (lit "custom.cellOptions")
                    ∷ "value" ⇒ (dict ("type" ⇒ (lit "color-background") ∷ []))
                    ∷ []))
                ∷ (dict (
                    "id" ⇒ (lit "thresholds")
                    ∷ "value" ⇒ (
                        thresholds (
                          (codes "red", int (negsuc 89))
                          ∷ (codes "yellow", int (negsuc 69))
                          ∷ (codes "green", int (negsuc 59))
                          ∷ []))
                    ∷ []))
                ∷ (dict (
                    "id" ⇒ (lit "mappings")
                    ∷ "value" ⇒ (
                        list (
                          (dict (
                            "type" ⇒ (lit "special")
                            ∷ "options" ⇒ (
                                dict (
                                  "match" ⇒ (lit "null")
                                  ∷ "result" ⇒ (
                                      dict (
                                        "text" ⇒ (lit "Unavailable")
                                        ∷ "color" ⇒ (lit "gray")
                                        ∷ "index" ⇒ (number 0)
                                        ∷ []))
                                  ∷ []))
                            ∷ []))
                          ∷ []))
                    ∷ []))
                ∷ []))
            ∷ (field_override (codes "Lease Remaining") (
                (dict ("id" ⇒ (lit "unit") ∷ "value" ⇒ (lit "s") ∷ []))
                ∷ (dict (
                    "id" ⇒ (lit "mappings")
                    ∷ "value" ⇒ (
                        list (
                          (dict (
                            "type" ⇒ (lit "special")
                            ∷ "options" ⇒ (
                                dict (
                                  "match" ⇒ (lit "null")
                                  ∷ "result" ⇒ (
                                      dict (
                                        "text" ⇒ (lit "No lease")
                                        ∷ "color" ⇒ (lit "gray")
                                        ∷ "index" ⇒ (number 0)
                                        ∷ []))
                                  ∷ []))
                            ∷ []))
                          ∷ []))
                    ∷ []))
                ∷ []))
            ∷ (regexp_override (codes "/Inbound|Outbound/") (
                (dict ("id" ⇒ (lit "unit") ∷ "value" ⇒ (lit "Bps") ∷ []))
                ∷ (dict (
                    "id" ⇒ (lit "mappings")
                    ∷ "value" ⇒ (
                        list (
                          (dict (
                            "type" ⇒ (lit "special")
                            ∷ "options" ⇒ (
                                dict (
                                  "match" ⇒ (lit "null")
                                  ∷ "result" ⇒ (
                                      dict (
                                        "text" ⇒ (lit "Unavailable or unreliable")
                                        ∷ "color" ⇒ (lit "gray")
                                        ∷ "index" ⇒ (number 0)
                                        ∷ []))
                                  ∷ []))
                            ∷ []))
                          ∷ []))
                    ∷ []))
                ∷ []))
            ∷ (field_override (codes "Traffic Accounting") (
                (dict (
                  "id" ⇒ (lit "custom.cellOptions")
                  ∷ "value" ⇒ (dict ("type" ⇒ (lit "color-background") ∷ []))
                  ∷ []))
                ∷ (dict ("id" ⇒ (lit "mappings") ∷ "value" ⇒ (list traffic_state_mappings) ∷ []))
                ∷ []))
            ∷ (field_override (codes "IPv6")
                ((dict ("id" ⇒ (lit "mappings") ∷ "value" ⇒ (list ipv6_mappings) ∷ [])) ∷ []))
            ∷ []))
          (some (codes "Hostname")) false))
      0 0 24 14
    ∷ on_grid
        (some (
          timeseries (pos 101) (codes "WiFi Signal by Client")
            ((prom_query
                (wifi_signal_by_mac
                  ++ (codes " * on(mac) group_left(hostname, ssid, band) openwrt_client_info{"
                      ++ (wifi_client_filter ++ codes "}")))
                (codes "{{hostname}} {{ssid}} {{band}}") (codes "A") (codes "time_series") false)
              ∷ [])
            (codes "dBm")
            (codes
              "WiFi client RSSI joined to client identity after normalizing upstream station MAC labels to lowercase. Empty means no WiFi signal collector sample exists for the selected client.")
            false (pos 15) (codes "linear") none
            (some (
              thresholds (
                (codes "red", int (negsuc 89))
                ∷ (codes "yellow", int (negsuc 69))
                ∷ (codes "green", int (negsuc 59))
                ∷ [])))
            (some ((codes "lastNotNull") ∷ (codes "min") ∷ [])) (codes "normal") none))
        0 14 12 8
    ∷ on_grid
        (bargauge (pos 102) (codes "Weakest Associated Clients")
          ((prom_query
              (codes "bottomk(10, "
                ++ (wifi_signal_by_mac
                    ++ (codes " * on(mac) group_left(hostname, ssid, band) openwrt_client_info{"
                        ++ (wifi_client_filter ++ codes "})"))))
              (codes "{{hostname}} {{ssid}} {{band}}") (codes "A") (codes "time_series") false)
            ∷ [])
          (codes "dBm") (codes "Bottom-10 current WiFi RSSI values. Less negative is better.")
          (codes "neutral") none none (codes "thresholds") none none false)
        12 14 12 8
    ∷ on_grid
        (some (
          timeseries (pos 103) (codes "Client Presence")
            ((prom_query
                (codes "sum(openwrt_client_up{"
                  ++ (prom_filter
                      ++ (codes "} * on(mac) group_left(connection, network) openwrt_client_info{"
                          ++ (client_filter ++ codes "})"))))
                (codes "Online") (codes "A") (codes "time_series") false)
              ∷ (prom_query
                  (codes "count(openwrt_client_info{"
                    ++ (client_filter
                        ++ (codes "}) - sum(openwrt_client_up{"
                            ++ (prom_filter
                                ++ (codes
                                      "} * on(mac) group_left(connection, network) openwrt_client_info{"
                                    ++ (client_filter ++ codes "})"))))))
                  (codes "Offline") (codes "B") (codes "time_series") false)
              ∷ [])
            (codes "none")
            (codes
              "Online and offline client inventory trend. Offline clients still appear in the inventory when the router knows about them.")
            false (pos 15) (codes "linear")
            (some (
              (field_override (codes "Online") (
                (dict (
                  "id" ⇒ (lit "color")
                  ∷ "value" ⇒ (dict ("mode" ⇒ (lit "fixed") ∷ "fixedColor" ⇒ (str green) ∷ []))
                  ∷ []))
                ∷ []))
              ∷ (field_override (codes "Offline") (
                  (dict (
                    "id" ⇒ (lit "color")
                    ∷ "value" ⇒ (dict ("mode" ⇒ (lit "fixed") ∷ "fixedColor" ⇒ (str gray) ∷ []))
                    ∷ []))
                  ∷ []))
              ∷ []))
            none none (codes "normal") none))
        0 22 12 7
    ∷ on_grid
        (bargauge (pos 104) (codes "Randomized / Local MACs")
          ((prom_query
              (codes "count by(mac_type) (openwrt_client_info{"
                ++ (client_filter ++ codes "}) or vector(0)"))
              (codes "{{mac_type}}") (codes "A") (codes "time_series") false)
            ∷ [])
          (codes "none")
          (codes
            "Locally administered MACs are privacy/randomized or synthetic addresses; the dashboard surfaces them without trying to fingerprint a physical device.")
          (codes "neutral") none none (codes "thresholds")
          (some ((tf (codes "labelsToFields") none) ∷ [])) none false)
        12 22 12 7
    ∷ on_grid
        (some (
          timeseries (pos 105) (codes "Highest Conntrack Occupancy")
            ((prom_query
                (trusted_conntrack (
                  codes "topk(12, openwrt_client_conntrack_entries{"
                  ++ (prom_filter
                      ++ (codes "} * on(mac) group_left(hostname, network) openwrt_client_info{"
                          ++ (client_filter ++ codes "})")))))
                (codes "{{hostname}} {{network}}") (codes "A") (codes "time_series") false)
              ∷ [])
            (codes "none")
            (codes
              "Current conntrack rows containing each known client IPv4 address. This is a bounded per-client state count; it is suppressed while flow-offload entry semantics remain unverified.")
            false (pos 15) (codes "linear") none none
            (some ((codes "lastNotNull") ∷ (codes "max") ∷ [])) (codes "normal") none))
        0 29 24 8
    ∷ []
