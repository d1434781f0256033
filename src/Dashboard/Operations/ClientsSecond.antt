-- ===== src/Dashboard/Operations/ClientsSecond.antt =====
-- Panels of the tab "Client Insights" of `build_dashboard`, scripts/build_openwrt_operations_dashboard.py.
use openwrt_grafana_monitor.Prelude.{List, [], false, negsuc, none, pos, some, true, ◌++◌, ◌∷◌}
use openwrt_grafana_monitor.Text.{codes}
use openwrt_grafana_monitor.Dashboard.Json.{dict, int, list, lit, number, ◌⇒◌}
use openwrt_grafana_monitor.Dashboard.Styles.{prom_filter, thresholds}
use openwrt_grafana_monitor.Dashboard.Queries.{calculate, limit, organize, prom_query, sort_by, tf}
use openwrt_grafana_monitor.Dashboard.Panels.Tables.{piechart, table}
use openwrt_grafana_monitor.Dashboard.Operations.Rates.{dl, ul}
use openwrt_grafana_monitor.Dashboard.Panels.Series.{timeseries}
use openwrt_grafana_monitor.Dashboard.Panels.Values.{bargauge}
use openwrt_grafana_monitor.Dashboard.Assemble.{Placement, on_grid}

unfoldable pub clients_panels_second : List Placement
clients_panels_second =
    on_grid
      (bargauge (pos 806) (codes "Top Clients by Upload")
        ((prom_query (codes "topk(10, " ++ (ul ++ codes ")")) (codes "{{device}}") (codes "A")
            (codes "time_series") false)
          ∷ [])
        (codes "Bps")
        (codes
          "Bounded top-10 clients by current upload rate. Useful for spotting a host pushing data out.")
        (codes "neutral") none none (codes "thresholds") (some ((limit (pos 10)) ∷ [])) none false)
      12 7 12 9
    ∷ on_grid
        (some (
          timeseries (pos 807) (codes "Download by Client Over Time")
            ((prom_query (codes "topk(8, " ++ (dl ++ codes ")")) (codes "{{device}}") (codes "A")
                (codes "time_series") false)
              ∷ [])
            (codes "Bps")
            (codes
              "Top clients' download rate as a stacked area, so you can see who was busy and when.")
            true (pos 35) (codes "linear") none none none (codes "normal") none))
        0 16 12 8
    ∷ on_grid
        (some (
          piechart (pos 808) (codes "Download Share by Client")
            ((prom_query (codes "topk(8, " ++ (dl ++ codes ")")) (codes "{{device}}") (codes "A")
                (codes "time_series") false)
              ∷ [])
            (codes "Bps")
            (codes
              "Share of current download traffic per client. A single dominant slice is the household's heaviest user right now.")
            (codes "donut") none none false))
        12 16 12 8
    ∷ on_grid
        (some (
          table (pos 809) (codes "Client Activity")
            ((prom_query dl [] (codes "A") (codes "table") true)
              ∷ (prom_query ul [] (codes "B") (codes "table") true)
              ∷ (prom_query (codes "openwrt_device_info{" ++ (prom_filter ++ codes "}")) []
                  (codes "C") (codes "table") true)
              ∷ [])
            (codes
              "One row per client, merging download and upload rates with identity from separate queries and a derived Total column. This is a joinByField + calculateField merge, not three separate panels. Clients with no current traffic still appear via the identity query.")
            (some (
              (tf (codes "joinByField")
                (some ("byField" ⇒ (lit "device") ∷ "mode" ⇒ (lit "outer") ∷ [])))
              ∷ (calculate (codes "Total") (codes "Value #A") (codes "Value #B") (codes "+") false)
              ∷ (organize
                  (some (
                    (codes "Time")
                    ∷ (codes "__name__")
                    ∷ (codes "Value #C")
                    ∷ (codes "interface")
                    ∷ (codes "mac")
                    ∷ (codes "cluster")
                    ∷ (codes "job")
                    ∷ (codes "router")
                    ∷ (codes "endpoint")
                    ∷ (codes "instance")
                    ∷ (codes "namespace")
                    ∷ (codes "prometheus")
                    ∷ (codes "prometheus_replica")
                    ∷ (codes "service")
                    ∷ []))
                  (some (
                    "device" ⇒ (lit "Client")
                    ∷ "ip" ⇒ (lit "IP")
                    ∷ "Value #A" ⇒ (lit "Download")
                    ∷ "Value #B" ⇒ (lit "Upload")
                    ∷ []))
                  (some (
                    "Client" ⇒ (number 0)
                    ∷ "IP" ⇒ (number 1)
                    ∷ "Download" ⇒ (number 2)
                    ∷ "Upload" ⇒ (number 3)
                    ∷ "Total" ⇒ (number 4)
                    ∷ [])))
              ∷ (sort_by (codes "Total") true)
              ∷ (limit (pos 50))
              ∷ []))
            (some (
              (dict (
                "matcher" ⇒ (
                  dict ("id" ⇒ (lit "byRegexp") ∷ "options" ⇒ (lit "/Download|Upload|Total/") ∷ []))
                ∷ "properties" ⇒ (
                    list (
                      (dict ("id" ⇒ (lit "unit") ∷ "value" ⇒ (lit "Bps") ∷ []))
                      ∷ (dict (
                          "id" ⇒ (lit "custom.cellOptions")
                          ∷ "value"
                            ⇒ (dict ("type" ⇒ (lit "gauge") ∷ "mode" ⇒ (lit "gradient") ∷ []))
                          ∷ []))
                      ∷ (dict ("id" ⇒ (lit "min") ∷ "value" ⇒ (number 0) ∷ []))
                      ∷ []))
                ∷ []))
              ∷ []))
            (some (codes "Total")) true))
        0 24 24 11
    ∷ on_grid
        (bargauge (pos 811) (codes "WiFi Clients by Packet Rate")
          ((prom_query
              (codes "topk(10, sum by(mac) (rate(wifi_station_receive_packets_total{"
                ++ (prom_filter
                    ++ (codes "}[$__rate_interval]) + rate(wifi_station_transmit_packets_total{"
                        ++ (prom_filter ++ codes "}[$__rate_interval])))"))))
              (codes "{{mac}}") (codes "A") (codes "time_series") false)
            ∷ [])
          (codes "pps")
          (codes
            "Top WiFi stations by real packet rate from station packet counters (not PHY link rate). Keyed by MAC because the exporter's WiFi MAC casing does not match the DHCP lease map.")
          (codes "neutral") none none (codes "thresholds") (some ((limit (pos 10)) ∷ [])) none
          false)
        0 35 24 8
    ∷ on_grid
        (some (
          table (pos 812) (codes "WiFi Client Detail")
            ((prom_query (codes "wifi_station_signal_dbm{" ++ (prom_filter ++ codes "}")) []
                (codes "A") (codes "table") true)
              ∷ (prom_query
                  (codes "wifi_station_receive_kilobits_per_second{"
                    ++ (prom_filter ++ codes "} * 1000"))
                  [] (codes "B") (codes "table") true)
              ∷ (prom_query
                  (codes "wifi_station_transmit_kilobits_per_second{"
                    ++ (prom_filter ++ codes "} * 1000"))
                  [] (codes "C") (codes "table") true)
              ∷ (prom_query
                  (codes "label_replace(openwrt_wifi_station_connected_seconds{"
                    ++ (prom_filter ++ codes "}, \"mac\", \"$1\", \"station\", \"(.*)\")"))
                  [] (codes "D") (codes "table") true)
              ∷ [])
            (codes
              "Per-station WiFi quality: signal, negotiated RX/TX link rate, and session age. The connected-seconds series is label_replaced from station to mac so it joins the signal and rate queries.")
            (some (
              (tf (codes "joinByField")
                (some ("byField" ⇒ (lit "mac") ∷ "mode" ⇒ (lit "outer") ∷ [])))
              ∷ (organize
                  (some (
                    (codes "Time")
                    ∷ (codes "__name__")
                    ∷ (codes "vif")
                    ∷ (codes "cluster")
                    ∷ (codes "job")
                    ∷ (codes "router")
                    ∷ (codes "endpoint")
                    ∷ (codes "instance")
                    ∷ (codes "namespace")
                    ∷ (codes "prometheus")
                    ∷ (codes "prometheus_replica")
                    ∷ (codes "service")
                    ∷ []))
                  (some (
                    "mac" ⇒ (lit "Station MAC")
                    ∷ "ifname" ⇒ (lit "Radio")
                    ∷ "Value #A" ⇒ (lit "Signal dBm")
                    ∷ "Value #B" ⇒ (lit "RX Link")
                    ∷ "Value #C" ⇒ (lit "TX Link")
                    ∷ "Value #D" ⇒ (lit "Connected")
                    ∷ []))
                  (some (
                    "Station MAC" ⇒ (number 0)
                    ∷ "Radio" ⇒ (number 1)
                    ∷ "Signal dBm" ⇒ (number 2)
                    ∷ "RX Link" ⇒ (number 3)
                    ∷ "TX Link" ⇒ (number 4)
                    ∷ "Connected" ⇒ (number 5)
                    ∷ [])))
              ∷ (sort_by (codes "Signal dBm") false)
              ∷ []))
            (some (
              (dict (
                "matcher"
                  ⇒ (dict ("id" ⇒ (lit "byRegexp") ∷ "options" ⇒ (lit "/RX Link|TX Link/") ∷ []))
                ∷ "properties"
                  ⇒ (list ((dict ("id" ⇒ (lit "unit") ∷ "value" ⇒ (lit "bps") ∷ [])) ∷ []))
                ∷ []))
              ∷ (dict (
                  "matcher" ⇒ (dict ("id" ⇒ (lit "byName") ∷ "options" ⇒ (lit "Connected") ∷ []))
                  ∷ "properties"
                    ⇒ (list ((dict ("id" ⇒ (lit "unit") ∷ "value" ⇒ (lit "s") ∷ [])) ∷ []))
                  ∷ []))
              ∷ (dict (
                  "matcher" ⇒ (dict ("id" ⇒ (lit "byName") ∷ "options" ⇒ (lit "Signal dBm") ∷ []))
                  ∷ "properties" ⇒ (
                      list (
                        (dict ("id" ⇒ (lit "unit") ∷ "value" ⇒ (lit "dBm") ∷ []))
                        ∷ (dict (
                            "id" ⇒ (lit "custom.cellOptions")
                            ∷ "value" ⇒ (dict ("type" ⇒ (lit "color-background") ∷ []))
                            ∷ []))
                        ∷ (dict (
                            "id" ⇒ (lit "thresholds")
                            ∷ "value" ⇒ (
                                thresholds (
                                  (codes "red", int (negsuc 89))
                                  ∷ (codes "yellow", int (negsuc 69))
                                  ∷ (codes "green", int (negsuc 59))
                                  ∷ []))
                            ∷ []))
                        ∷ []))
                  ∷ []))
              ∷ []))
            (some (codes "Signal dBm")) false))
        0 43 24 9
    ∷ []
