-- ===== src/Dashboard/Clients/Roaming.antt =====
-- Panels of the tab "Roaming" of `build_dashboard`, scripts/build_openwrt_clients_dashboard.py.
use openwrt_grafana_monitor.Prelude.{List, [], false, none, pos, some, ◌++◌, ◌∷◌}
use openwrt_grafana_monitor.Text.{codes}
use openwrt_grafana_monitor.Dashboard.Panels.Tables.{logs_panel}
use openwrt_grafana_monitor.Dashboard.Styles.{loki_filter, prom_filter}
use openwrt_grafana_monitor.Dashboard.Queries.{prom_query}
use openwrt_grafana_monitor.Dashboard.Panels.Series.{timeseries}
use openwrt_grafana_monitor.Dashboard.Panels.Values.{loki_stat, stat}
use openwrt_grafana_monitor.Dashboard.Clients.Mappings.{conntrack_state_mappings}
use openwrt_grafana_monitor.Dashboard.Clients.Base.{assoc_events_available}
use openwrt_grafana_monitor.Dashboard.Builder.{text_panel}
use openwrt_grafana_monitor.Dashboard.Assemble.{Placement, on_grid}

unfoldable pub client_roaming : List Placement
client_roaming =
    on_grid
      (some (
        text_panel (pos 400) [] (
          codes
            "## WiFi roaming\nRaw hostapd association and disconnection lines are kept in Loki for per-client investigation. Prometheus receives only the bounded aggregate counter by AP, SSID, and event; it never carries a MAC, remote IP, domain, port, IPv6 address, or vendor label.")))
      0 0 24 4
    ∷ on_grid
        (stat (pos 401) (codes "Association Event Collector") assoc_events_available (codes "none")
          (codes
            "Availability of the bounded AP/SSID/event counter. Loki raw-event panels remain useful even when this aggregate counter is unavailable.")
          [] (codes "unavailable") (some conntrack_state_mappings) false none (codes "value")
          (codes "Unavailable"))
        0 4 8 4
    ∷ on_grid
        (loki_stat (pos 402) (codes "Roam Events (1h)")
          (codes "sum(count_over_time({"
            ++ (loki_filter
                ++ codes "} |~ \"AP-STA-(CONNECTED|DISCONNECTED)\" [1h])) or vector(0)"))
          (codes
            "Hostapd association/disconnection lines in Loki. A zero is a valid no-events state on a single AP; an empty Loki result is rendered as zero, not an error.")
          (codes "neutral") none)
        8 4 8 4
    ∷ on_grid
        (some (
          timeseries (pos 403) (codes "Association Events by AP / SSID")
            ((prom_query
                (codes "sum by(ap, ssid, event) (increase(openwrt_wifi_assoc_events_total{"
                  ++ (prom_filter ++ codes "}[$__rate_interval]))"))
                (codes "{{ap}} {{ssid}} {{event}}") (codes "A") (codes "time_series") false)
              ∷ [])
            (codes "none")
            (codes
              "Bounded aggregate association events. The label budget is AP x SSID x {connected, disconnected}; no MAC label is emitted.")
            false (pos 15) (codes "linear") none none none (codes "normal") none))
        16 4 8 4
    ∷ on_grid
        (some (
          logs_panel (pos 404) (codes "Roaming Timeline")
            (codes "{" ++ (loki_filter ++ codes "} |~ \"AP-STA-(CONNECTED|DISCONNECTED)\""))
            (codes
              "Raw hostapd events, including the station MAC, live only in Loki. No events is an expected, clean empty timeline on a single-AP installation.")))
        0 8 24 14
    ∷ []
