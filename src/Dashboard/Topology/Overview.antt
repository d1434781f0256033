-- ===== src/Dashboard/Topology/Overview.antt =====
-- Panels of the tab "Overview" of `build_dashboard`, scripts/build_openwrt_topology_dashboard.py.
use openwrt_grafana_monitor.Prelude.{List, [], false, none, pos, some, true, ◌++◌, ◌∷◌}
use openwrt_grafana_monitor.Text.{codes}
use openwrt_grafana_monitor.Dashboard.Topology.Base.{
  count_nodes, edges_expr, node_metric, nodes_expr, selector, topology_availability_expr,
  weak_links,
}
use openwrt_grafana_monitor.Dashboard.Styles.Mappings.{availability_mappings}
use openwrt_grafana_monitor.Dashboard.Panels.Values.{stat}
use openwrt_grafana_monitor.Dashboard.Builder.{text_panel}
use openwrt_grafana_monitor.Dashboard.Assemble.{Placement, on_grid}

unfoldable pub topology_overview : List Placement
topology_overview =
    on_grid
      (some (
        text_panel (pos 1) [] (
          codes
            "## Network topology\ninternet -> modem -> gateway -> switch port / AP -> BSSID -> client, built from the same identity data as the clients dashboard. Node and edge frames come from the same scrape (topology.lua), so a client that disappears never leaves a dangling edge. Every exporter contributes only what it can see first-hand: a downstream AP never invents an uplink, and only the gateway names clients, because only the gateway runs DHCP.")))
      0 0 24 3
    ∷ on_grid
        (stat (pos 2) (codes "Topology Collector")
          (topology_availability_expr (codes "openwrt_topology_collector_available")
            (codes "topology"))
          (codes "none")
          (codes
            "Collector availability gated by both the topology flag and the Lua exporter's per-collector scrape success.")
          [] (codes "unavailable") (some availability_mappings) false none (codes "value")
          (codes "Unavailable"))
        0 3 6 4
    ∷ on_grid
        (stat (pos 3) (codes "Nodes") (codes "count(" ++ (nodes_expr ++ codes ") or vector(0)"))
          (codes "none")
          (codes
            "Nodes actually rendered, after cross-router reconciliation: placeholder duplicates and routers appearing as each other's clients are already removed.")
          [] (codes "neutral") none true none (codes "value") (codes "Unavailable"))
        6 3 6 4
    ∷ on_grid
        (stat (pos 4) (codes "Edges") (codes "count(" ++ (edges_expr ++ codes ") or vector(0)"))
          (codes "none")
          (codes
            "Edges actually rendered (wan/nat/ap/uplink/link/radio/assoc/lan), after the wired-vs-wifi conflict is resolved.")
          [] (codes "neutral") none true none (codes "value") (codes "Unavailable"))
        12 3 6 4
    ∷ on_grid
        (stat (pos 5) (codes "Online Clients")
          (codes "count("
            ++ selector node_metric (codes "id=~\"client:.+\", arc__online=\"1\", authority=\"1\"")
            ++ codes ") or vector(0)")
          (codes "none")
          (codes
            "Client nodes currently reporting arc__online=1, counted from first-hand series only so a placeholder never double-counts.")
          [] (codes "neutral") none true none (codes "value") (codes "Unavailable"))
        18 3 6 4
    ∷ on_grid
        (stat (pos 6) (codes "Access Points") (count_nodes (codes "id=~\"ap:.+\"")) (codes "none")
          (codes
            "Boxes broadcasting at least one BSS, including the gateway when it also serves wifi.")
          [] (codes "neutral") none true none (codes "value") (codes "Unavailable"))
        0 7 6 4
    ∷ on_grid
        (stat (pos 7) (codes "Broadcast BSSIDs") (count_nodes (codes "id=~\"bss:.+\""))
          (codes "none")
          (codes
            "Distinct basic service sets. Two APs broadcasting one SSID are two BSSIDs on two channels, which is why they are separate nodes.")
          [] (codes "neutral") none true none (codes "value") (codes "Unavailable"))
        6 7 6 4
    ∷ on_grid
        (stat (pos 8) (codes "Weak Wi-Fi Links") weak_links (codes "none")
          (codes
            "Associations below -72 dBm. The collector colours each association edge from the signal it reads in the same scrape, so this counts exactly what the graph draws red.")
          [] (codes "ok_bad") none true none (codes "value") (codes "Unavailable"))
        12 7 6 4
    ∷ on_grid
        (stat (pos 9) (codes "Offline Clients")
          (codes "count("
            ++ selector node_metric (codes "id=~\"client:.+\", arc__offline=\"1\", authority=\"1\"")
            ++ codes ") or vector(0)")
          (codes "none")
          (codes
            "Known clients not currently reachable. Grey rather than red on the graph: a device that has gone home is not a fault.")
          [] (codes "neutral") none true none (codes "value") (codes "Unavailable"))
        18 7 6 4
    ∷ []
