-- ===== src/Dashboard/Topology/Quality.antt =====
-- Panels of the tab "Data Quality" of `build_dashboard`, scripts/build_openwrt_topology_dashboard.py.
use openwrt_grafana_monitor.Prelude.{List, [], false, none, pos, some, true, ◌++◌, ◌∷◌}
use openwrt_grafana_monitor.Text.{codes}
use openwrt_grafana_monitor.Dashboard.Topology.Base.{
  edges_expr, edges_raw, infra_metric, node_metric, nodes_expr, nodes_raw, selector,
}
use openwrt_grafana_monitor.Dashboard.Queries.{organize, prom_query, sort_by}
use openwrt_grafana_monitor.Dashboard.Panels.Tables.{table}
use openwrt_grafana_monitor.Dashboard.Panels.Values.{stat}
use openwrt_grafana_monitor.Dashboard.Builder.{text_panel}
use openwrt_grafana_monitor.Dashboard.Assemble.{Placement, on_grid}

unfoldable pub topology_quality : List Placement
topology_quality =
    on_grid
      (some (
        text_panel (pos 200) [] (
          codes
            "## Data quality\nRaw, un-reconciled node and edge series -- what the exporters actually emitted, including anything the Topology tab is hiding. The three checks below are the invariants that decide whether the panel renders at all: a dangling edge endpoint crashes Grafana's node graph rather than degrading, and two boxes claiming the same id first-hand means one of them silently overwrites the other.")))
      0 0 24 4
    ∷ on_grid
        (stat (pos 201) (codes "Colliding Node IDs")
          (codes "count(count by (id) ("
            ++ selector node_metric (codes "authority=\"1\"")
            ++ codes ") > 1) or vector(0)")
          (codes "none")
          (codes
            "Node ids claimed first-hand by more than one router. Must be zero: Grafana keys nodes by id and silently keeps whichever row arrives last. Two gateways on one LAN is the realistic way to trip this.")
          [] (codes "ok_bad") none false none (codes "value") (codes "Unavailable"))
        0 4 8 4
    ∷ on_grid
        (stat (pos 202) (codes "Dangling Edge Sources")
          (codes "count("
            ++ (edges_expr
                ++ (codes " unless on(source) label_replace("
                    ++ (nodes_expr
                        ++ codes ", \"source\", \"$1\", \"id\", \"(.+)\")) or vector(0)"))))
          (codes "none")
          (codes "Rendered edges whose source resolves to no rendered node. Must be zero.") []
          (codes "ok_bad") none false none (codes "value") (codes "Unavailable"))
        8 4 8 4
    ∷ on_grid
        (stat (pos 203) (codes "Dangling Edge Targets")
          (codes "count("
            ++ (edges_expr
                ++ (codes " unless on(target) label_replace("
                    ++ (nodes_expr
                        ++ codes ", \"target\", \"$1\", \"id\", \"(.+)\")) or vector(0)"))))
          (codes "none")
          (codes "Rendered edges whose target resolves to no rendered node. Must be zero.") []
          (codes "ok_bad") none false none (codes "value") (codes "Unavailable"))
        16 4 8 4
    ∷ on_grid
        (some (
          table (pos 204) (codes "Topology Nodes")
            ((prom_query nodes_raw [] (codes "A") (codes "table") true) ∷ [])
            (codes
              "One row per emitted openwrt_topology_node series, before reconciliation. `authority` shows which box observed the node first-hand; duplicate ids across routers are expected here and resolved on the Topology tab.")
            (some (
              (organize
                (some (
                  (codes "Time")
                  ∷ (codes "__name__")
                  ∷ (codes "cluster")
                  ∷ (codes "endpoint")
                  ∷ (codes "namespace")
                  ∷ (codes "prometheus")
                  ∷ (codes "prometheus_replica")
                  ∷ (codes "service")
                  ∷ []))
                none none)
              ∷ (sort_by (codes "id") false)
              ∷ []))
            none (some (codes "id")) false))
        0 8 24 9
    ∷ on_grid
        (some (
          table (pos 205) (codes "Topology Edges")
            ((prom_query edges_raw [] (codes "A") (codes "table") true) ∷ [])
            (codes
              "One row per emitted openwrt_topology_edge series, before reconciliation. Every source/target must match an id in the nodes table above.")
            (some (
              (organize
                (some (
                  (codes "Time")
                  ∷ (codes "__name__")
                  ∷ (codes "cluster")
                  ∷ (codes "endpoint")
                  ∷ (codes "namespace")
                  ∷ (codes "prometheus")
                  ∷ (codes "prometheus_replica")
                  ∷ (codes "service")
                  ∷ []))
                none none)
              ∷ (sort_by (codes "id") false)
              ∷ []))
            none (some (codes "id")) false))
        0 17 24 9
    ∷ on_grid
        (some (
          table (pos 206) (codes "Infrastructure MACs")
            ((prom_query (selector infra_metric []) [] (codes "A") (codes "table") true) ∷ [])
            (codes
              "Each exporter's own interface MACs. These are why an access point no longer renders as a laptop hanging off the gateway: the matching client node and every edge pointing at it are suppressed on the Topology tab.")
            (some (
              (organize
                (some (
                  (codes "Time")
                  ∷ (codes "__name__")
                  ∷ (codes "cluster")
                  ∷ (codes "endpoint")
                  ∷ (codes "namespace")
                  ∷ (codes "prometheus")
                  ∷ (codes "prometheus_replica")
                  ∷ (codes "service")
                  ∷ []))
                none none)
              ∷ (sort_by (codes "mac") false)
              ∷ []))
            none (some (codes "mac")) false))
        0 26 24 8
    ∷ []
