-- ===== src/Dashboard/Advanced/Whole.antt =====
-- `variables` and `build_dashboard` of scripts/build_openwrt_advanced_dashboard.py, up to the call of `validate_dashboard`.
use openwrt_grafana_monitor.Prelude.{List, Option, [], false, some, true, ◌++◌, ◌∷◌}
use openwrt_grafana_monitor.Text.{Text, codes}
use openwrt_grafana_monitor.Dashboard.Json.{Json, bool, dict, list, lit, number, ◌>>=◌, ◌⇒◌}
use openwrt_grafana_monitor.Dashboard.Advanced.DpiSecond.{advanced_dpi_second}
use openwrt_grafana_monitor.Dashboard.Builder.{
  Builder, datasource_var, empty_builder, query_var, tabs_layout,
}
use openwrt_grafana_monitor.Dashboard.Advanced.DpiFirst.{advanced_dpi_first}
use openwrt_grafana_monitor.Dashboard.Advanced.Wifi.{advanced_wifi}
use openwrt_grafana_monitor.Dashboard.Advanced.Traffic.{advanced_traffic}
use openwrt_grafana_monitor.Dashboard.Styles.{prom_filter}
use openwrt_grafana_monitor.Dashboard.Advanced.Overview.{advanced_overview}
use openwrt_grafana_monitor.Dashboard.Assemble.{Placement, assemble}

unfoldable pub variables : List Json
unfolding query_var datasource_var
variables =
    (datasource_var (codes "DS_PROMETHEUS") (codes "Prometheus") (codes "prometheus")
      (codes "prometheus"))
    ∷ (query_var (codes "router") (codes "Router")
        (codes "label_values(node_load1{job=\"openwrt\"}, router)") (codes "openwrt") true true
        (codes ".*"))
    ∷ (query_var (codes "device") (codes "Device")
        (codes "label_values(openwrt_device_info{" ++ (prom_filter ++ codes "}, device)"))
        (codes "All") true true (codes ".*"))
    ∷ []

unfoldable pub dashboard_spec : Builder → List Json → Json
dashboard_spec b tabs = dict (
    "title" ⇒ (lit "OpenWrt - Advanced Monitoring")
    ∷ "description" ⇒ (
        lit
          "Optional profile dashboard for OpenWrt nftables traffic, WiFi mesh, Netifyd DPI, and data quality.")
    ∷ "tags" ⇒ (list ((lit "openwrt") ∷ (lit "advanced") ∷ (lit "router") ∷ []))
    ∷ "cursorSync" ⇒ (lit "Crosshair")
    ∷ "editable" ⇒ (bool true)
    ∷ "preload" ⇒ (bool false)
    ∷ "liveNow" ⇒ (bool false)
    ∷ "variables" ⇒ (list variables)
    ∷ "elements" ⇒ (dict b.elements)
    ∷ "layout" ⇒ (tabs_layout tabs)
    ∷ "annotations" ⇒ (
        list (
          (dict (
            "kind" ⇒ (lit "AnnotationQuery")
            ∷ "spec" ⇒ (
                dict (
                  "builtIn" ⇒ (bool true)
                  ∷ "enable" ⇒ (bool true)
                  ∷ "hide" ⇒ (bool true)
                  ∷ "iconColor" ⇒ (lit "rgba(0, 211, 255, 1)")
                  ∷ "name" ⇒ (lit "Annotations & Alerts")
                  ∷ "query" ⇒ (
                      dict (
                        "kind" ⇒ (lit "DataQuery")
                        ∷ "group" ⇒ (lit "grafana")
                        ∷ "version" ⇒ (lit "v0")
                        ∷ "spec" ⇒ (dict [])
                        ∷ []))
                  ∷ []))
            ∷ []))
          ∷ []))
    ∷ "links" ⇒ (list [])
    ∷ "timeSettings" ⇒ (
        dict (
          "timezone" ⇒ (lit "browser")
          ∷ "from" ⇒ (lit "now-3h")
          ∷ "to" ⇒ (lit "now")
          ∷ "autoRefresh" ⇒ (lit "30s")
          ∷ "autoRefreshIntervals"
            ⇒ (list ((lit "10s") ∷ (lit "30s") ∷ (lit "1m") ∷ (lit "5m") ∷ (lit "15m") ∷ []))
          ∷ "hideTimepicker" ⇒ (bool false)
          ∷ "fiscalYearStartMonth" ⇒ (number 0)
          ∷ []))
    ∷ [])

unfoldable pub dashboard : Builder → List Json → Json
dashboard b tabs = dict (
    "apiVersion" ⇒ (lit "dashboard.grafana.app/v2beta1")
    ∷ "kind" ⇒ (lit "Dashboard")
    ∷ "metadata" ⇒ (dict ("name" ⇒ (lit "openwrt-advanced") ∷ []))
    ∷ "spec" ⇒ dashboard_spec b tabs
    ∷ [])

-- What is added to each tab.
unfoldable pub contents : List (Text × List Placement)
contents =
    (codes "Advanced Overview", advanced_overview)
    ∷ (codes "Device Traffic", advanced_traffic)
    ∷ (codes "WiFi Mesh", advanced_wifi)
    ∷ (codes "DPI and Data Quality", advanced_dpi_first ++ advanced_dpi_second)
    ∷ []

unfoldable pub build_dashboard : Option Json
build_dashboard = assemble empty_builder [] contents >>= λ r. some (dashboard r.0 r.1)
