-- ===== src/Dashboard/Topology/Graph.antt =====
-- Panels of the tab "Topology" of `build_dashboard`, scripts/build_openwrt_topology_dashboard.py.
use openwrt_grafana_monitor.Prelude.{List, [], pos, some, ◌∷◌}
use openwrt_grafana_monitor.Text.{codes}
use openwrt_grafana_monitor.Dashboard.Builder.{text_panel}
use openwrt_grafana_monitor.Dashboard.Topology.Base.{nodegraph}
use openwrt_grafana_monitor.Dashboard.Assemble.{Placement, on_grid}

unfoldable pub topology_topology : List Placement
topology_topology =
    on_grid
      (some (
        nodegraph (pos 100) (codes "Network Topology") (
          codes
            "The live network graph. Node and edge values are current throughput in bytes/sec, joined from the per-device traffic counters onto the topology frames; anything with no traffic reads a truthful 0 B/s rather than disappearing, and routers without the traffic profile contribute a real 0 rather than a gap. The ring around each node is its health arc: green online/ok, grey offline, yellow warning. Association edges are coloured by signal - green above -60 dBm, orange to -72, red below - and a wired client sits under the switch port its MAC was learned on. Click any node for its client or router dashboard.")))
      0 0 24 20
    ∷ on_grid
        (some (
          text_panel (pos 101) [] (
            codes
              "**Reading the graph.** `internet` -> `modem:` (only when the WAN nexthop is a private address, i.e. double NAT) -> `router:<lan-ip>` -> `port:` switch ports and `ap:` access points -> `bss:<bssid>` -> `client:<mac>`. Nodes are keyed so that every router names the same thing identically: the gateway by its LAN IP, each radio by its BSSID. An isolated client node means its connection state is genuinely unknown (no association list available) - the collector never guesses a wired link.")))
        0 20 24 4
    ∷ []
