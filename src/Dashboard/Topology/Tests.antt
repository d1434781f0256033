-- ===== src/Dashboard/Topology/Tests.antt =====
-- The topology dashboard is put together.
use openwrt_grafana_monitor.Prelude.{List, [], refl, some, true, ◌∷◌, ◌≡◌}
use openwrt_grafana_monitor.Text.{Text, codes, elem, text_eq}
use openwrt_grafana_monitor.Dashboard.Topology.Base.{nodegraph}
use openwrt_grafana_monitor.Dashboard.Builder.{Builder, empty_builder, text_panel}
use openwrt_grafana_monitor.Dashboard.Validate.Refs.{keys_of}
use openwrt_grafana_monitor.Dashboard.Panels.Tables.{table}
use openwrt_grafana_monitor.Dashboard.Assemble.{assemble}
use openwrt_grafana_monitor.Dashboard.Panels.Values.{stat}
use openwrt_grafana_monitor.Dashboard.Json.{Json}
use openwrt_grafana_monitor.Dashboard.Styles.{threshold_for}
use openwrt_grafana_monitor.Dashboard.Validate.{no_repeat}
use openwrt_grafana_monitor.Dashboard.Panels.Base.{panel, panel_key}
use openwrt_grafana_monitor.Dashboard.Assemble.Total.{assemble-builds, keys_in, panel_keys}
use openwrt_grafana_monitor.Dashboard.Topology.Whole.{contents}
use openwrt_grafana_monitor.Dashboard.Topology.Overview.{topology_overview}
use openwrt_grafana_monitor.Dashboard.Topology.Graph.{topology_topology}
use openwrt_grafana_monitor.Dashboard.Topology.Quality.{topology_quality}

abbrev topology_keys : List Text
topology_keys =
    panel_keys
      (1 ∷ 2 ∷ 3 ∷ 4 ∷ 5 ∷ 6 ∷ 7 ∷ 8 ∷ 9 ∷ 100 ∷ 101 ∷ 200 ∷ 201 ∷ 202 ∷ 203 ∷ 204 ∷ 205 ∷ 206 ∷ [])

contents_keys : keys_in contents ≡ some topology_keys
unfolding keys_in contents codes panel threshold_for text_eq topology_overview topology_topology
    topology_quality stat table text_panel nodegraph
contents_keys = refl

keys_once : no_repeat topology_keys ≡ true
unfolding elem panel_key codes
keys_once = refl

topology_built :
    (r : Builder × List Json) × (assemble empty_builder [] contents ≡ some r)
    × (keys_of r.0.elements ≡ topology_keys)
topology_built = assemble-builds contents topology_keys contents_keys keys_once
