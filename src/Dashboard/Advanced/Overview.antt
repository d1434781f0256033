-- ===== src/Dashboard/Advanced/Overview.antt =====
-- Panels of the tab "Advanced Overview" of `build_dashboard`, scripts/build_openwrt_advanced_dashboard.py.
use openwrt_grafana_monitor.Prelude.{List, [], false, none, pos, some, ◌++◌, ◌∷◌}
use openwrt_grafana_monitor.Text.{codes}
use openwrt_grafana_monitor.Dashboard.Queries.{limit, prom_query}
use openwrt_grafana_monitor.Dashboard.Panels.Values.{bargauge, stat}
use openwrt_grafana_monitor.Dashboard.Styles.{blue, green, prom_filter}
use openwrt_grafana_monitor.Dashboard.Json.{dict, list, lit, str, ◌⇒◌}
use openwrt_grafana_monitor.Dashboard.Advanced.Base.{availability, device_filter}
use openwrt_grafana_monitor.Dashboard.Panels.Series.{timeseries}
use openwrt_grafana_monitor.Dashboard.Builder.{text_panel}
use openwrt_grafana_monitor.Dashboard.Assemble.{Placement, on_grid}

unfoldable pub advanced_overview : List Placement
advanced_overview =
    on_grid
      (some (
        text_panel (pos 1) [] (
          codes
            "## Advanced OpenWrt monitoring\nProfile-aware views for per-device nftables traffic, WiFi mesh signals, and optional Netifyd DPI. Missing profiles are shown as unavailable.")))
      0 0 24 3
    ∷ on_grid
        (availability (pos 2) (codes "Traffic Profile")
          (codes "openwrt_device_traffic_collector_available")
          (codes
            "Read-only nftables per-device counters. Green requires both the collector flag and a successful exporter scrape of that collector. Enable the traffic or full router profile.")
          (codes "device_traffic"))
        0 3 6 4
    ∷ on_grid
        (availability (pos 3) (codes "WiFi Mesh Profile")
          (codes "openwrt_wifi_mesh_collector_available")
          (codes
            "Optional radio and usteer mesh metrics. Green requires both the collector flag and a successful exporter scrape. Enable the wifi_mesh or full router profile.")
          (codes "wifi_dethrash"))
        6 3 6 4
    ∷ on_grid
        (availability (pos 4) (codes "DPI Profile") (codes "openwrt_dpi_collector_available")
          (codes
            "Optional Netifyd status snapshot metrics. Reads 0 when the snapshot is missing or older than 5 minutes, so a wedged Netifyd is not shown as healthy.")
          (codes "dpi_netifyd"))
        12 3 6 4
    ∷ on_grid
        (stat (pos 5) (codes "Tracked Devices")
          (codes "count(openwrt_device_info{" ++ (prom_filter ++ codes "}) or vector(0)"))
          (codes "none")
          (codes "Current device identities discovered from the DHCP lease map and nftables sets.")
          [] (codes "neutral") none false none (codes "background_solid") (codes "Unavailable"))
        18 3 6 4
    ∷ on_grid
        (some (
          timeseries (pos 6) (codes "Tracked Device Traffic")
            ((prom_query
                (codes "sum by(direction) (rate(openwrt_device_traffic_bytes_total{"
                  ++ (device_filter ++ codes "}[$__rate_interval]))"))
                (codes "{{direction}}") (codes "A") (codes "time_series") false)
              ∷ [])
            (codes "Bps")
            (codes
              "Traffic rate from nftables counters. Hostnames are bounded and selected from DHCP leases.")
            false (pos 15) (codes "linear")
            (some (
              (dict (
                "matcher" ⇒ (dict ("id" ⇒ (lit "byName") ∷ "options" ⇒ (lit "upload") ∷ []))
                ∷ "properties" ⇒ (
                    list (
                      (dict (
                        "id" ⇒ (lit "color")
                        ∷ "value" ⇒ (dict ("mode" ⇒ (lit "fixed") ∷ "fixedColor" ⇒ (str blue) ∷ []))
                        ∷ []))
                      ∷ []))
                ∷ []))
              ∷ (dict (
                  "matcher" ⇒ (dict ("id" ⇒ (lit "byName") ∷ "options" ⇒ (lit "download") ∷ []))
                  ∷ "properties" ⇒ (
                      list (
                        (dict (
                          "id" ⇒ (lit "color")
                          ∷ "value"
                            ⇒ (dict ("mode" ⇒ (lit "fixed") ∷ "fixedColor" ⇒ (str green) ∷ []))
                          ∷ []))
                        ∷ []))
                  ∷ []))
              ∷ []))
            none none (codes "normal") none))
        0 7 12 8
    ∷ on_grid
        (some (
          timeseries (pos 7) (codes "WiFi Radio Signal")
            ((prom_query
                (codes "avg by(device, ifname) (wifi_radio_txpower_dbm{"
                  ++ (prom_filter ++ codes "})"))
                (codes "{{device}} {{ifname}}") (codes "A") (codes "time_series") false)
              ∷ [])
            (codes "dBm")
            (codes "Radio transmit power. This is an RF configuration signal, not client RSSI.")
            false (pos 15) (codes "linear") none none none (codes "normal") none))
        12 7 12 8
    ∷ on_grid
        (bargauge (pos 8) (codes "Top Tracked Devices")
          ((prom_query
              (codes "topk(10, sum by(device) (rate(openwrt_device_traffic_bytes_total{"
                ++ (device_filter ++ codes "}[$__rate_interval])))"))
              (codes "{{device}}") (codes "A") (codes "time_series") false)
            ∷ [])
          (codes "Bps")
          (codes "Bounded top-10 device traffic ranking. It is descriptive, not a health score.")
          (codes "neutral") none none (codes "thresholds") (some ((limit (pos 10)) ∷ [])) none
          false)
        0 15 12 8
    ∷ on_grid
        (some (
          timeseries (pos 9) (codes "DPI Active Flows")
            ((prom_query
                (codes "openwrt_dpi_active_flows{" ++ (prom_filter ++ codes "} or vector(0)"))
                (codes "Active flows") (codes "A") (codes "time_series") false)
              ∷ (prom_query
                  (codes "openwrt_dpi_devices{" ++ (prom_filter ++ codes "} or vector(0)"))
                  (codes "DPI devices") (codes "B") (codes "time_series") false)
              ∷ [])
            (codes "none")
            (codes
              "Netifyd status snapshot values. No data means the DPI profile is not installed or has no readable status snapshot.")
            false (pos 15) (codes "linear") none none none (codes "normal") none))
        12 15 12 8
    ∷ []
