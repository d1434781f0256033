-- ===== src/Dashboard/Advanced/Wifi.antt =====
-- Panels of the tab "WiFi Mesh" of `build_dashboard`, scripts/build_openwrt_advanced_dashboard.py.
use openwrt_grafana_monitor.Prelude.{List, [], false, none, pos, some, true, ◌++◌, ◌∷◌}
use openwrt_grafana_monitor.Text.{codes}
use openwrt_grafana_monitor.Dashboard.Panels.Values.{bargauge, stat}
use openwrt_grafana_monitor.Dashboard.Queries.{limit, organize, prom_query, tf}
use openwrt_grafana_monitor.Dashboard.Json.{lit, ◌⇒◌}
use openwrt_grafana_monitor.Dashboard.Panels.Tables.{table}
use openwrt_grafana_monitor.Dashboard.Panels.Series.{timeseries}
use openwrt_grafana_monitor.Dashboard.Styles.{prom_filter}
use openwrt_grafana_monitor.Dashboard.Advanced.Base.{availability}
use openwrt_grafana_monitor.Dashboard.Builder.{text_panel}
use openwrt_grafana_monitor.Dashboard.Assemble.{Placement, on_grid}

unfoldable pub advanced_wifi : List Placement
advanced_wifi =
    on_grid
      (some (
        text_panel (pos 200) [] (
          codes
            "## WiFi mesh\nRadio settings use low-cardinality labels. usteer metrics are emitted only when usteer is present and exposes local_info. Client hearing maps remain intentionally outside the default profile to bound MAC cardinality.")))
      0 0 24 4
    ∷ on_grid
        (availability (pos 201) (codes "Mesh Collector")
          (codes "openwrt_wifi_mesh_collector_available")
          (codes
            "Whether the optional Lua mesh collector loaded its ubus and iwinfo dependencies and completed its scrape.")
          (codes "wifi_dethrash"))
        0 4 6 4
    ∷ on_grid
        (stat (pos 202) (codes "Associated Clients")
          (codes "sum(wifi_usteer_associated_clients{" ++ (prom_filter ++ codes "}) or vector(0)"))
          (codes "none")
          (codes
            "Associated clients reported by usteer local_info. Zero can be a valid empty mesh state.")
          [] (codes "neutral") none false none (codes "background_solid") (codes "Unavailable"))
        6 4 6 4
    ∷ on_grid
        (stat (pos 203) (codes "Mesh Load")
          (codes "max(wifi_usteer_load{" ++ (prom_filter ++ codes "}) or vector(0)")) (codes "none")
          (codes "Local usteer load value when available.") [] (codes "neutral") none false none
          (codes "background_solid") (codes "Unavailable"))
        12 4 6 4
    ∷ on_grid
        (stat (pos 204) (codes "Radios")
          (codes "count(wifi_radio_channel{" ++ (prom_filter ++ codes "}) or vector(0)"))
          (codes "none") (codes "Radios with channel data from iwinfo.") [] (codes "neutral") none
          false none (codes "background_solid") (codes "Unavailable"))
        18 4 6 4
    ∷ on_grid
        (some (
          timeseries (pos 205) (codes "Radio Channel and Frequency")
            ((prom_query (codes "wifi_radio_channel{" ++ (prom_filter ++ codes "}"))
                (codes "{{device}} {{ifname}} channel") (codes "A") (codes "time_series") false)
              ∷ (prom_query (codes "wifi_radio_frequency_mhz{" ++ (prom_filter ++ codes "}"))
                  (codes "{{device}} {{ifname}} MHz") (codes "B") (codes "time_series") false)
              ∷ [])
            (codes "none") (codes "Current channel and center frequency per radio interface.") false
            (pos 15) (codes "linear") none none none (codes "normal") none))
        0 8 12 8
    ∷ on_grid
        (some (
          timeseries (pos 206) (codes "Radio TX Power")
            ((prom_query (codes "wifi_radio_txpower_dbm{" ++ (prom_filter ++ codes "}"))
                (codes "{{device}} {{ifname}}") (codes "A") (codes "time_series") false)
              ∷ (prom_query (codes "wifi_radio_txpower_offset_dbm{" ++ (prom_filter ++ codes "}"))
                  (codes "{{device}} {{ifname}} offset") (codes "B") (codes "time_series") false)
              ∷ [])
            (codes "dBm") (codes "Configured radio transmit power and calibration offset.") false
            (pos 15) (codes "linear") none none none (codes "normal") none))
        12 8 12 8
    ∷ on_grid
        (some (
          table (pos 207) (codes "WiFi Security and Roaming Features")
            ((prom_query (codes "wifi_iface_ieee80211r_enabled{" ++ (prom_filter ++ codes "}")) []
                (codes "A") (codes "table") true)
              ∷ (prom_query (codes "wifi_iface_ieee80211k_enabled{" ++ (prom_filter ++ codes "}"))
                  [] (codes "B") (codes "table") true)
              ∷ (prom_query (codes "wifi_iface_ieee80211v_enabled{" ++ (prom_filter ++ codes "}"))
                  [] (codes "C") (codes "table") true)
              ∷ [])
            (codes "802.11r/k/v settings per configured wireless interface.")
            (some (
              (tf (codes "merge") none)
              ∷ (organize
                  (some (
                    (codes "Time")
                    ∷ (codes "__name__")
                    ∷ (codes "cluster")
                    ∷ (codes "endpoint")
                    ∷ (codes "instance")
                    ∷ (codes "job")
                    ∷ (codes "namespace")
                    ∷ (codes "prometheus")
                    ∷ (codes "prometheus_replica")
                    ∷ (codes "router")
                    ∷ (codes "service")
                    ∷ []))
                  (some (
                    "device" ⇒ (lit "Radio")
                    ∷ "ifname" ⇒ (lit "Interface")
                    ∷ "ssid" ⇒ (lit "SSID")
                    ∷ "Value #A" ⇒ (lit "11r")
                    ∷ "Value #B" ⇒ (lit "11k")
                    ∷ "Value #C" ⇒ (lit "11v")
                    ∷ []))
                  none)
              ∷ (limit (pos 25))
              ∷ []))
            none (some (codes "Interface")) false))
        0 16 24 9
    ∷ on_grid
        (some (
          timeseries (pos 208) (codes "usteer Roam Events")
            ((prom_query (codes "wifi_usteer_roam_events_source{" ++ (prom_filter ++ codes "}"))
                (codes "{{ap}} source") (codes "A") (codes "time_series") false)
              ∷ (prom_query (codes "wifi_usteer_roam_events_target{" ++ (prom_filter ++ codes "}"))
                  (codes "{{ap}} target") (codes "B") (codes "time_series") false)
              ∷ [])
            (codes "none") (codes "Cumulative roam event values reported by usteer local_info.")
            false (pos 15) (codes "linear") none none none (codes "normal") none))
        0 25 12 8
    ∷ on_grid
        (bargauge (pos 209) (codes "Associated Clients by AP")
          ((prom_query (codes "wifi_usteer_associated_clients{" ++ (prom_filter ++ codes "}"))
              (codes "{{ap}}") (codes "A") (codes "time_series") false)
            ∷ [])
          (codes "none") (codes "Current associated client count by usteer AP label.")
          (codes "neutral") none none (codes "thresholds") (some ((limit (pos 25)) ∷ [])) none
          false)
        12 25 12 8
    ∷ []
