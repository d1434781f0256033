-- ===== src/Dashboard/Operations/Wifi.antt =====
-- Panels of the tab "WiFi & Clients" of `build_dashboard`, scripts/build_openwrt_operations_dashboard.py.
use openwrt_grafana_monitor.Prelude.{List, [], false, none, pos, some, true, ◌++◌, ◌∷◌}
use openwrt_grafana_monitor.Text.{codes}
use openwrt_grafana_monitor.Dashboard.Queries.{limit, organize, prom_query, sort_by, tf}
use openwrt_grafana_monitor.Dashboard.Json.{lit, number, ◌⇒◌}
use openwrt_grafana_monitor.Dashboard.Wifi.{
  wifi_client_count, wifi_connected, wifi_inactive, wifi_rx_bps, wifi_signal, wifi_tx_bps,
}
use openwrt_grafana_monitor.Dashboard.Panels.Tables.{table}
use openwrt_grafana_monitor.Dashboard.Panels.Values.{bargauge}
use openwrt_grafana_monitor.Dashboard.Styles.{
  blue, gray, green, prom_filter, regexp_color_override, thresholds,
}
use openwrt_grafana_monitor.Dashboard.Panels.Series.{timeseries}
use openwrt_grafana_monitor.Dashboard.Builder.{text_panel}
use openwrt_grafana_monitor.Dashboard.Assemble.{Placement, on_grid}

unfoldable pub wifi_panels : List Placement
wifi_panels =
    on_grid
      (some (
        text_panel (pos 200) [] (
          codes
            "## WiFi & Clients\nAP-level panels stay low-cardinality. Client MACs appear only in bounded rankings and tables. For dBm, less negative is better: -45 dBm is stronger than -70 dBm.")))
      0 0 24 3
    ∷ on_grid
        (some (
          timeseries (pos 201) (codes "AP Throughput by Band")
            ((prom_query
                (codes "rate(node_network_receive_bytes_total{"
                  ++ (prom_filter ++ codes ", device=~\"$wifi_ap\"}[$__rate_interval])"))
                (codes "RX {{device}}") (codes "A") (codes "time_series") false)
              ∷ (prom_query
                  (codes "rate(node_network_transmit_bytes_total{"
                    ++ (prom_filter ++ codes ", device=~\"$wifi_ap\"}[$__rate_interval])"))
                  (codes "TX {{device}}") (codes "B") (codes "time_series") false)
              ∷ [])
            (codes "Bps") (codes "Measured AP interface traffic rate, not PHY/link rate.") false
            (pos 15) (codes "linear")
            (some (
              (regexp_color_override (codes "/RX/i") green)
              ∷ (regexp_color_override (codes "/TX/i") blue)
              ∷ []))
            none none (codes "normal") none))
        0 3 24 8
    ∷ on_grid
        (some (
          timeseries (pos 202) (codes "AP Signal and Noise")
            ((prom_query (codes "wifi_network_signal_dbm{" ++ (prom_filter ++ codes "}"))
                (codes "signal {{ssid}} {{ifname}}") (codes "A") (codes "time_series") false)
              ∷ (prom_query (codes "wifi_network_noise_dbm{" ++ (prom_filter ++ codes "}"))
                  (codes "noise {{ssid}} {{ifname}}") (codes "B") (codes "time_series") false)
              ∷ [])
            (codes "dBm")
            (codes "AP signal/noise from optional WiFi collector. Less negative signal is better.")
            false (pos 15) (codes "linear")
            (some (
              (regexp_color_override (codes "/signal/i") green)
              ∷ (regexp_color_override (codes "/noise/i") gray)
              ∷ []))
            none none (codes "normal") none))
        0 11 8 7
    ∷ on_grid
        (some (
          timeseries (pos 203) (codes "AP Quality")
            ((prom_query (codes "wifi_network_quality{" ++ (prom_filter ++ codes "}"))
                (codes "{{ssid}} {{ifname}}") (codes "A") (codes "time_series") false)
              ∷ [])
            (codes "percent") (codes "AP quality percentage from optional WiFi collector.") false
            (pos 15) (codes "linear") none
            (some (
              thresholds (
                (codes "red", number 0)
                ∷ (codes "yellow", number 70)
                ∷ (codes "green", number 85)
                ∷ [])))
            none (codes "normal") none))
        8 11 8 7
    ∷ on_grid
        (some (
          timeseries (pos 204) (codes "AP Bitrate")
            ((prom_query (codes "wifi_network_bitrate{" ++ (prom_filter ++ codes "} * 1000"))
                (codes "{{ssid}} {{ifname}}") (codes "A") (codes "time_series") false)
              ∷ [])
            (codes "bps")
            (codes "AP PHY bitrate. This is link capability, not measured traffic throughput.")
            false (pos 15) (codes "stepAfter") none none none (codes "normal") none))
        16 11 8 7
    ∷ on_grid
        (bargauge (pos 205) (codes "Clients by AP")
          ((prom_query wifi_client_count (codes "{{vif}}") (codes "A") (codes "time_series") false)
            ∷ [])
          (codes "none")
          (codes "Neutral ranking of client counts per AP. Higher is not automatically bad.")
          (codes "neutral") none none (codes "thresholds") none none false)
        0 18 8 7
    ∷ on_grid
        (bargauge (pos 206) (codes "Weakest Clients by Signal")
          ((prom_query (codes "bottomk(10, " ++ (wifi_signal ++ codes ")"))
              (codes "{{station}} {{vif}}") (codes "A") (codes "time_series") false)
            ∷ [])
          (codes "dBm")
          (codes "Bounded bottom-10 WiFi client signal ranking. Less negative values are better.")
          (codes "neutral") none none (codes "thresholds") none none false)
        8 18 8 7
    ∷ on_grid
        (bargauge (pos 207) (codes "Top Clients by Rate")
          ((prom_query
              (codes "topk(10, sum by(station, vif) (("
                ++ (wifi_rx_bps ++ (codes ") + (" ++ (wifi_tx_bps ++ codes ")))"))))
              (codes "{{station}} {{vif}}") (codes "A") (codes "time_series") false)
            ∷ [])
          (codes "bps")
          (codes
            "Actual throughput from per-station byte counters when the exporter exposes them (hostapd_stations or wifi_station byte totals). When it does not, this falls back to the negotiated PHY link rate from iw station dump, which reflects link capability, not bytes moved, so an idle client on a fast link can rank high. This exporter build exposes only the link-rate fallback.")
          (codes "neutral") none none (codes "thresholds") none none false)
        16 18 8 7
    ∷ on_grid
        (some (
          table (pos 208) (codes "Selected Client Quality Details")
            ((prom_query wifi_signal [] (codes "A") (codes "table") true)
              ∷ (prom_query wifi_connected [] (codes "B") (codes "table") true)
              ∷ (prom_query wifi_inactive [] (codes "C") (codes "table") true)
              ∷ [])
            (codes
              "Bounded operational table for connected WiFi stations. Collector plumbing fields are hidden.")
            (some (
              (tf (codes "merge") none)
              ∷ (organize
                  (some (
                    (codes "Time")
                    ∷ (codes "__name__")
                    ∷ (codes "cluster")
                    ∷ (codes "job")
                    ∷ (codes "router")
                    ∷ (codes "endpoint")
                    ∷ (codes "instance")
                    ∷ (codes "namespace")
                    ∷ (codes "prometheus")
                    ∷ (codes "prometheus_replica")
                    ∷ (codes "service")
                    ∷ (codes "mac")
                    ∷ (codes "ifname")
                    ∷ []))
                  (some (
                    "station" ⇒ (lit "Station")
                    ∷ "ssid" ⇒ (lit "SSID")
                    ∷ "vif" ⇒ (lit "AP")
                    ∷ "frequency" ⇒ (lit "MHz")
                    ∷ "channel" ⇒ (lit "Channel")
                    ∷ "Value #A" ⇒ (lit "Signal dBm")
                    ∷ "Value #B" ⇒ (lit "Connected Seconds")
                    ∷ "Value #C" ⇒ (lit "Inactive Seconds")
                    ∷ []))
                  none)
              ∷ (sort_by (codes "Signal dBm") false)
              ∷ (limit (pos 25))
              ∷ []))
            none (some (codes "Signal dBm")) false))
        0 25 24 10
    ∷ []
