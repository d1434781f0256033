-- ===== src/Dashboard/Topology/Whole.antt =====
-- `variables` and `build_dashboard` of scripts/build_openwrt_topology_dashboard.py, up to the call of `validate_dashboard`.
use openwrt_grafana_monitor.Prelude.{List, Option, [], false, some, true, ◌∷◌}
use openwrt_grafana_monitor.Text.{Text, codes}
use openwrt_grafana_monitor.Dashboard.Builder.{
  Builder, datasource_var, empty_builder, query_var, tabs_layout,
}
use openwrt_grafana_monitor.Dashboard.Json.{Json, bool, dict, list, lit, number, ◌>>=◌, ◌⇒◌}
use openwrt_grafana_monitor.Dashboard.Topology.Quality.{topology_quality}
use openwrt_grafana_monitor.Dashboard.Topology.Graph.{topology_topology}
use openwrt_grafana_monitor.Dashboard.Topology.Overview.{topology_overview}
use openwrt_grafana_monitor.Dashboard.Assemble.{Placement, assemble}

unfoldable pub variables : List Json
unfolding query_var datasource_var
variables =
    (datasource_var (codes "DS_PROMETHEUS") (codes "Prometheus") (codes "prometheus")
      (codes "prometheus"))
    ∷ (query_var (codes "router") (codes "Router")
        (codes "label_values(node_load1{job=\"openwrt\"}, router)") (codes "openwrt") true true
        (codes ".*"))
    ∷ []

unfoldable pub dashboard_spec : Builder → List Json → Json
dashboard_spec b tabs = dict (
    "title" ⇒ (lit "OpenWrt - Topology")
    ∷ "description" ⇒ (
        lit
          "Network topology node graph for OpenWrt: internet, modem, gateway, switch ports, access points, BSSIDs, and client identity, driven by the Prometheus datasource with no plugin install.")
    ∷ "tags" ⇒ (list ((lit "openwrt") ∷ (lit "topology") ∷ (lit "router") ∷ []))
    ∷ "cursorSync" ⇒ (lit "Crosshair")
    ∷ "editable" ⇒ (bool true)
    ∷ "preload" ⇒ (bool false)
    ∷ "liveNow" ⇒ (bool false)
    ∷ "annotations" ⇒ (
        list (
          (dict (
            "kind" ⇒ (lit "AnnotationQuery")
            ∷ "spec" ⇒ (
                dict (
                  "builtIn" ⇒ (bool true)
                  ∷ "enable" ⇒ (bool true)
                  ∷ "hide" ⇒ (bool true)
                  ∷ "iconColor" ⇒ (lit "rgba(0, 211, 255, 1)")
                  ∷ "name" ⇒ (lit "Annotations & Alerts")
                  ∷ "query" ⇒ (
                      dict (
                        "kind" ⇒ (lit "DataQuery")
                        ∷ "group" ⇒ (lit "grafana")
                        ∷ "version" ⇒ (lit "v0")
                        ∷ "spec" ⇒ (dict [])
                        ∷ []))
                  ∷ []))
            ∷ []))
          ∷ []))
    ∷ "links" ⇒ (list [])
    ∷ "timeSettings" ⇒ (
        dict (
          "timezone" ⇒ (lit "browser")
          ∷ "from" ⇒ (lit "now-3h")
          ∷ "to" ⇒ (lit "now")
          ∷ "autoRefresh" ⇒ (lit "30s")
          ∷ "autoRefreshIntervals"
            ⇒ (list ((lit "10s") ∷ (lit "30s") ∷ (lit "1m") ∷ (lit "5m") ∷ (lit "15m") ∷ []))
          ∷ "hideTimepicker" ⇒ (bool false)
          ∷ "fiscalYearStartMonth" ⇒ (number 0)
          ∷ []))
    ∷ "variables" ⇒ (list variables)
    ∷ "elements" ⇒ (dict b.elements)
    ∷ "layout" ⇒ (tabs_layout tabs)
    ∷ [])

unfoldable pub dashboard : Builder → List Json → Json
dashboard b tabs = dict (
    "apiVersion" ⇒ (lit "dashboard.grafana.app/v2beta1")
    ∷ "kind" ⇒ (lit "Dashboard")
    ∷ "metadata" ⇒ (dict ("name" ⇒ (lit "openwrt-topology") ∷ []))
    ∷ "spec" ⇒ dashboard_spec b tabs
    ∷ [])

-- What is added to each tab.
unfoldable pub contents : List (Text × List Placement)
contents =
    (codes "Overview", topology_overview)
    ∷ (codes "Topology", topology_topology)
    ∷ (codes "Data Quality", topology_quality)
    ∷ []

unfoldable pub build_dashboard : Option Json
build_dashboard = assemble empty_builder [] contents >>= λ r. some (dashboard r.0 r.1)
