-- ===== src/Dashboard/Operations/Whole.antt =====
-- `variables` and `build_dashboard`.
use openwrt_grafana_monitor.Prelude.{List, Option, [], false, some, true, ◌++◌, ◌∷◌}
use openwrt_grafana_monitor.Text.{Text, codes}
use openwrt_grafana_monitor.Dashboard.Operations.OptionalSecond.{opt_panels_second}
use openwrt_grafana_monitor.Dashboard.Operations.OptionalFirst.{opt_panels_first}
use openwrt_grafana_monitor.Dashboard.Operations.Optionals.{optional_tiles, optionals}
use openwrt_grafana_monitor.Dashboard.Operations.Introduction.{opt_introduction}
use openwrt_grafana_monitor.Dashboard.Operations.LogsSecond.{logs_panels_second}
use openwrt_grafana_monitor.Dashboard.Operations.LogsFirst.{logs_panels_first}
use openwrt_grafana_monitor.Dashboard.Operations.HealthThird.{health_panels_third}
use openwrt_grafana_monitor.Dashboard.Operations.HealthSecond.{health_panels_second}
use openwrt_grafana_monitor.Dashboard.Operations.HealthFirst.{health_panels_first}
use openwrt_grafana_monitor.Dashboard.Builder.{
  Builder, datasource_var, empty_builder, query_var, tabs_layout,
}
use openwrt_grafana_monitor.Dashboard.Operations.Dns.{dns_panels}
use openwrt_grafana_monitor.Dashboard.Json.{Json, bool, dict, list, lit, number, ◌>>=◌, ◌⇒◌}
use openwrt_grafana_monitor.Dashboard.Operations.ClientsSecond.{clients_panels_second}
use openwrt_grafana_monitor.Dashboard.Operations.ClientsFirst.{clients_panels_first}
use openwrt_grafana_monitor.Dashboard.Operations.Lan.{lan_panels}
use openwrt_grafana_monitor.Dashboard.Operations.Wifi.{wifi_panels}
use openwrt_grafana_monitor.Dashboard.Validate.Whole.{validate_dashboard}
use openwrt_grafana_monitor.Dashboard.Operations.Wan.{wan_panels}
use openwrt_grafana_monitor.Dashboard.Assemble.{Placement, assemble}
use openwrt_grafana_monitor.Dashboard.Operations.Overview.{overview_panels}

unfoldable pub variables : List Json
unfolding query_var datasource_var
variables =
    (datasource_var (codes "DS_PROMETHEUS") (codes "Prometheus") (codes "prometheus")
      (codes "prometheus"))
    ∷ (datasource_var (codes "DS_LOKI") (codes "Loki") (codes "loki") (codes "loki"))
    ∷ (query_var (codes "router") (codes "Router")
        (codes "label_values(node_load1{job=\"openwrt\"}, router)") (codes "openwrt") true true
        (codes ".*"))
    ∷ (query_var (codes "wan_interface") (codes "WAN interface")
        (codes "label_values(node_network_info{job=\"openwrt\", router=~\"$router\"}, device)")
        (codes "wan") false false (codes ".*"))
    ∷ (query_var (codes "lan_interface") (codes "LAN interface")
        (codes "label_values(node_network_info{job=\"openwrt\", router=~\"$router\"}, device)")
        (codes "br-lan") false false (codes ".*"))
    ∷ (query_var (codes "wifi_ap") (codes "WiFi AP interface")
        (codes
          "label_values(node_network_info{job=\"openwrt\", router=~\"$router\", device=~\"phy.*-ap.*|wlan.*\"}, device)")
        (codes "All") true true (codes "phy.*-ap.*|wlan.*"))
    ∷ (query_var (codes "vpn_interface") (codes "VPN interface")
        (codes "label_values(node_network_info{job=\"openwrt\", router=~\"$router\"}, device)")
        (codes "tailscale0") false false (codes ".*"))
    ∷ []

unfoldable pub dashboard_spec : Builder → List Json → Json
dashboard_spec b tabs = dict (
    "title" ⇒ (lit "OpenWrt — Operations")
    ∷ "description" ⇒ (
        lit
          "Single-tabbed OpenWrt operations dashboard for router health, WAN, WiFi, devices, capacity, logs, and optional collectors.")
    ∷ "tags" ⇒ (list ((lit "openwrt") ∷ (lit "operations") ∷ (lit "router") ∷ []))
    ∷ "cursorSync" ⇒ (lit "Crosshair")
    ∷ "editable" ⇒ (bool true)
    ∷ "preload" ⇒ (bool false)
    ∷ "liveNow" ⇒ (bool false)
    ∷ "annotations" ⇒ (
        list (
          (dict (
            "kind" ⇒ (lit "AnnotationQuery")
            ∷ "spec" ⇒ (
                dict (
                  "builtIn" ⇒ (bool true)
                  ∷ "enable" ⇒ (bool true)
                  ∷ "hide" ⇒ (bool true)
                  ∷ "iconColor" ⇒ (lit "rgba(0, 211, 255, 1)")
                  ∷ "name" ⇒ (lit "Annotations & Alerts")
                  ∷ "query" ⇒ (
                      dict (
                        "kind" ⇒ (lit "DataQuery")
                        ∷ "group" ⇒ (lit "grafana")
                        ∷ "version" ⇒ (lit "v0")
                        ∷ "spec" ⇒ (dict [])
                        ∷ []))
                  ∷ []))
            ∷ []))
          ∷ []))
    ∷ "links" ⇒ (list [])
    ∷ "timeSettings" ⇒ (
        dict (
          "timezone" ⇒ (lit "browser")
          ∷ "from" ⇒ (lit "now-3h")
          ∷ "to" ⇒ (lit "now")
          ∷ "autoRefresh" ⇒ (lit "30s")
          ∷ "autoRefreshIntervals"
            ⇒ (list ((lit "10s") ∷ (lit "30s") ∷ (lit "1m") ∷ (lit "5m") ∷ (lit "15m") ∷ []))
          ∷ "hideTimepicker" ⇒ (bool false)
          ∷ "fiscalYearStartMonth" ⇒ (number 0)
          ∷ []))
    ∷ "variables" ⇒ (list variables)
    ∷ "elements" ⇒ (dict b.elements)
    ∷ "layout" ⇒ (tabs_layout tabs)
    ∷ [])

unfoldable pub dashboard : Builder → List Json → Json
dashboard b tabs = dict (
    "apiVersion" ⇒ (lit "dashboard.grafana.app/v2beta1")
    ∷ "kind" ⇒ (lit "Dashboard")
    ∷ "metadata" ⇒ (dict ("name" ⇒ (lit "openwrt-operations") ∷ []))
    ∷ "spec" ⇒ dashboard_spec b tabs
    ∷ [])

-- What is added to each tab.
unfoldable pub contents : List (Text × List Placement)
contents =
    (codes "Overview", overview_panels)
    ∷ (codes "WAN & Internet", wan_panels)
    ∷ (codes "WiFi & Clients", wifi_panels)
    ∷ (codes "LAN, NAT & Devices", lan_panels)
    ∷ (codes "Client Insights", clients_panels_first ++ clients_panels_second)
    ∷ (codes "DNS & DHCP", dns_panels)
    ∷ (codes "Router Health", health_panels_first ++ (health_panels_second ++ health_panels_third))
    ∷ (codes "Logs & Security", logs_panels_first ++ logs_panels_second)
    ∷ (
      codes "Optional & Diagnostics",
      opt_introduction ++ (optional_tiles 0 optionals ++ (opt_panels_first ++ opt_panels_second)),
    )
    ∷ []

unfoldable pub build_dashboard : Option Json
build_dashboard = do
  (b, tabs) ← assemble empty_builder [] contents
  validate_dashboard (dashboard b tabs) >>= λ _. some (dashboard b tabs)
