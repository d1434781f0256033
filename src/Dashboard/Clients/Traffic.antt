-- ===== src/Dashboard/Clients/Traffic.antt =====
-- Panels of the tab "Traffic" of `build_dashboard`, scripts/build_openwrt_clients_dashboard.py.
use openwrt_grafana_monitor.Prelude.{List, [], false, none, pos, some, ◌++◌, ◌∷◌}
use openwrt_grafana_monitor.Text.{codes}
use openwrt_grafana_monitor.Dashboard.Clients.Base.{
  field_override, traffic_accounting_state, traffic_available, traffic_in, traffic_out,
  traffic_service,
}
use openwrt_grafana_monitor.Dashboard.Styles.{blue, green, prom_filter}
use openwrt_grafana_monitor.Dashboard.Json.{dict, lit, str, ◌⇒◌}
use openwrt_grafana_monitor.Dashboard.Queries.{prom_query}
use openwrt_grafana_monitor.Dashboard.Panels.Series.{timeseries}
use openwrt_grafana_monitor.Dashboard.Clients.Mappings.{offload_mappings, traffic_state_mappings}
use openwrt_grafana_monitor.Dashboard.Styles.Mappings.{availability_mappings}
use openwrt_grafana_monitor.Dashboard.Panels.Values.{stat}
use openwrt_grafana_monitor.Dashboard.Builder.{text_panel}
use openwrt_grafana_monitor.Dashboard.Assemble.{Placement, on_grid}

unfoldable pub client_traffic : List Placement
client_traffic =
    on_grid
      (some (
        text_panel (pos 200) [] (
          codes
            "## Per-client traffic\nnlbwmon accounts traffic by MAC and a deliberately small service set. The counters reset at nlbwmon accounting-period rollover, which `rate()` and `increase()` handle normally. Flow offload is a hard correctness guard: when enabled, all traffic values below are suppressed and the accounting state is red.")))
      0 0 24 4
    ∷ on_grid
        (stat (pos 201) (codes "Traffic Accounting State") traffic_accounting_state (codes "none")
          (codes
            "Not collected means nlbwmon is unavailable. Accounting unreliable means software or hardware flow offload is enabled, so traffic panels suppress values rather than showing wrong zeros.")
          [] (codes "ok_bad") (some traffic_state_mappings) false none (codes "value")
          (codes "Unavailable"))
        0 4 8 4
    ∷ on_grid
        (stat (pos 202) (codes "Traffic Collector") traffic_available (codes "none")
          (codes
            "Availability of the nlbwmon textfile collector. A failed schema or unsupported service is fail-closed.")
          [] (codes "unavailable") (some availability_mappings) false none (codes "value")
          (codes "Unavailable"))
        8 4 8 4
    ∷ on_grid
        (stat (pos 203) (codes "Flow Offload")
          (codes "max(openwrt_flow_offload_enabled{" ++ (prom_filter ++ codes "}) or vector(0)"))
          (codes "none")
          (codes
            "Software or hardware flow offload makes conntrack-derived nlbwmon accounting unreliable.")
          [] (codes "ok_bad") (some offload_mappings) false none (codes "value")
          (codes "Unavailable"))
        16 4 8 4
    ∷ on_grid
        (some (
          timeseries (pos 205) (codes "Inbound by Client")
            ((prom_query (codes "topk(12, " ++ (traffic_in ++ codes ")")) (codes "{{mac}}")
                (codes "A") (codes "time_series") false)
              ∷ [])
            (codes "Bps")
            (codes "Per-MAC nlbwmon inbound rate. Suppressed when flow offload is enabled.") false
            (pos 15) (codes "linear")
            (some (
              (field_override (codes "Inbound") (
                (dict (
                  "id" ⇒ (lit "color")
                  ∷ "value" ⇒ (dict ("mode" ⇒ (lit "fixed") ∷ "fixedColor" ⇒ (str green) ∷ []))
                  ∷ []))
                ∷ []))
              ∷ []))
            none none (codes "normal") none))
        0 8 12 8
    ∷ on_grid
        (some (
          timeseries (pos 206) (codes "Outbound by Client")
            ((prom_query (codes "topk(12, " ++ (traffic_out ++ codes ")")) (codes "{{mac}}")
                (codes "A") (codes "time_series") false)
              ∷ [])
            (codes "Bps")
            (codes "Per-MAC nlbwmon outbound rate. Suppressed when flow offload is enabled.") false
            (pos 15) (codes "linear")
            (some (
              (field_override (codes "Outbound") (
                (dict (
                  "id" ⇒ (lit "color")
                  ∷ "value" ⇒ (dict ("mode" ⇒ (lit "fixed") ∷ "fixedColor" ⇒ (str blue) ∷ []))
                  ∷ []))
                ∷ []))
              ∷ []))
            none none (codes "normal") none))
        12 8 12 8
    ∷ on_grid
        (some (
          timeseries (pos 207) (codes "Traffic by Service")
            ((prom_query traffic_service (codes "{{service}} {{direction}}") (codes "A")
                (codes "time_series") false)
              ∷ [])
            (codes "Bps")
            (codes
              "Bounded service buckets from the installed nlbwmon protocol file. Suppressed when flow offload is enabled.")
            false (pos 15) (codes "linear") none none none (codes "normal") none))
        0 16 24 10
    ∷ []
