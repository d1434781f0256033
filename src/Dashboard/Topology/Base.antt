-- ===== src/Dashboard/Topology/Base.antt =====
-- The constants and helpers of scripts/build_openwrt_topology_dashboard.py.
use openwrt_grafana_monitor.Prelude.{List, [], false, none, some, true, ℤ, ◌++◌, ◌∷◌}
use openwrt_grafana_monitor.Text.{Text, codes}
use openwrt_grafana_monitor.Dashboard.Queries.{organize, prom_query}
use openwrt_grafana_monitor.Dashboard.Styles.{gray, green, neutral, prom_filter, yellow}
use openwrt_grafana_monitor.Dashboard.Clients.Base.{field_override}
use openwrt_grafana_monitor.Dashboard.Json.{Json, bool, dict, list, lit, str, ◌⇒◌}
use openwrt_grafana_monitor.Dashboard.Panels.Base.{Panel, panel}

abbrev pub clients_dashboard : Text
clients_dashboard = codes "openwrt-clients"

abbrev pub mission_control_dashboard : Text
mission_control_dashboard = codes "openwrt-mission-control"

abbrev pub node_metric : Text
node_metric = codes "openwrt_topology_node"

abbrev pub edge_metric : Text
edge_metric = codes "openwrt_topology_edge"

abbrev pub infra_metric : Text
infra_metric = codes "openwrt_topology_infra_mac"

abbrev pub noise_columns : List Text
noise_columns =
    (codes "Time")
    ∷ (codes "__name__")
    ∷ (codes "authority")
    ∷ (codes "job")
    ∷ (codes "instance")
    ∷ (codes "router")
    ∷ (codes "cluster")
    ∷ (codes "endpoint")
    ∷ (codes "namespace")
    ∷ (codes "prometheus")
    ∷ (codes "prometheus_replica")
    ∷ (codes "service")
    ∷ []

unfoldable pub selector : Text → Text → Text
selector metric [] = metric ++ (codes "{" ++ (prom_filter ++ codes "}"))
selector metric (c ∷ cs) =
    let extra = c ∷ cs in
    metric ++ (codes "{" ++ (prom_filter ++ (codes ", " ++ (extra ++ codes "}"))))

unfoldable pub prefer_authority : Text → Text
unfolding selector
prefer_authority metric =
    let first = selector metric (codes "authority=\"1\"") in
    let fallback = selector metric (codes "authority=\"0\"") in
    codes "("
    ++ (first
        ++ (codes " or (" ++ (fallback ++ (codes " unless on(id) " ++ (first ++ codes "))")))))

unfoldable pub infra_as : Text → Text
unfolding selector
infra_as label =
    codes "label_replace("
    ++ (selector infra_metric []
        ++ (codes ", \"" ++ (label ++ codes "\", \"client:$1\", \"mac\", \"(.+)\")")))

abbrev pub traffic_by_mac : Text
traffic_by_mac =
    codes "sum by (mac) (rate("
    ++ (selector (codes "openwrt_device_traffic_bytes_total") []
        ++ (codes "[$__rate_interval]) * on(device) group_left(mac) "
            ++ (selector (codes "openwrt_device_info") [] ++ codes ")")))

unfoldable pub traffic_as : Text → Text
traffic_as prefix =
    codes "sum by (id) (label_replace("
    ++ (traffic_by_mac ++ (codes ", \"id\", \"" ++ (prefix ++ codes ":$1\", \"mac\", \"(.+)\"))")))

unfoldable pub overlay_traffic : Text → Text → Text
overlay_traffic base traffic =
    let zeroed = codes "((" ++ (base ++ codes ") * 0)") in
    codes "(("
    ++ (zeroed
        ++ (codes " + on(id) group_left() ("
            ++ (traffic ++ (codes ")) or " ++ (zeroed ++ codes ")")))))

unfoldable pub nodes_expr : Text
unfolding prefer_authority infra_as overlay_traffic traffic_as
nodes_expr =
    let reconciled =
      codes "("
      ++ (prefer_authority node_metric
          ++ (codes " unless on(id) " ++ (infra_as (codes "id") ++ codes ")"))) in
    overlay_traffic reconciled (traffic_as (codes "client"))

unfoldable pub edges_expr : Text
unfolding prefer_authority infra_as overlay_traffic traffic_as
edges_expr =
    let reconciled = prefer_authority edge_metric in
    let assoc_as_lan =
      codes "label_replace("
      ++ selector edge_metric (codes "id=~\"assoc:.+\"")
      ++ codes ", \"id\", \"lan:$1\", \"id\", \"assoc:(.+)\")" in
    let reconciled =
      codes "(" ++ (reconciled ++ (codes " unless on(id) " ++ (assoc_as_lan ++ codes ")"))) in
    let reconciled =
      codes "("
      ++ (reconciled
          ++ (codes " unless on(target) " ++ (infra_as (codes "target") ++ codes ")"))) in
    overlay_traffic reconciled (
      codes "("
      ++ (traffic_as (codes "lan") ++ (codes " or " ++ (traffic_as (codes "assoc") ++ codes ")"))))

abbrev pub nodes_raw : Text
nodes_raw = selector node_metric []

abbrev pub edges_raw : Text
edges_raw = selector edge_metric []

unfoldable pub topology_availability_expr : Text → Text → Text
unfolding selector
topology_availability_expr metric_name [] =
    codes "max(" ++ (selector metric_name [] ++ codes ") or vector(0)")
topology_availability_expr metric_name (c ∷ cs) =
    let collector = c ∷ cs in
    codes "(max("
    ++ (selector metric_name []
        ++ (codes ") * max(node_scrape_collector_success{"
            ++ (prom_filter
                ++ (codes ", collector=\"" ++ (collector ++ codes "\"})) or vector(0)")))))

unfoldable pub count_nodes : Text → Text
unfolding selector
count_nodes extra =
    codes "count("
    ++ selector node_metric (extra ++ codes ", authority=\"1\"")
    ++ codes ") or vector(0)"

abbrev pub node_links : List Json
node_links =
    (dict (
      "title" ⇒ (lit "Client detail for this device")
      ∷ "url" ⇒ (
          str (
            codes "/d/"
            ++ (clients_dashboard
                ++ (codes "/"
                    ++ (clients_dashboard
                        ++ codes
                            "?var-router=$router&var-mac=${__data.fields.detail__mac}&${__url_time_range}")))))
      ∷ "targetBlank" ⇒ (bool false)
      ∷ []))
    ∷ (dict (
        "title" ⇒ (lit "Mission Control for this router")
        ∷ "url" ⇒ (
            str (
              codes "/d/"
              ++ (mission_control_dashboard
                  ++ (codes "/"
                      ++ (mission_control_dashboard
                          ++ codes "?var-router=$router&${__url_time_range}")))))
        ∷ "targetBlank" ⇒ (bool false)
        ∷ []))
    ∷ []

abbrev pub node_arcs : List Json
node_arcs =
    (dict ("field" ⇒ (lit "arc__online") ∷ "color" ⇒ (str green) ∷ []))
    ∷ (dict ("field" ⇒ (lit "arc__offline") ∷ "color" ⇒ (str gray) ∷ []))
    ∷ (dict ("field" ⇒ (lit "arc__ok") ∷ "color" ⇒ (str green) ∷ []))
    ∷ (dict ("field" ⇒ (lit "arc__warn") ∷ "color" ⇒ (str yellow) ∷ []))
    ∷ []

unfoldable pub nodegraph : ℤ → Text → Text → Panel
unfolding panel nodes_expr edges_expr
nodegraph pid title desc =
    panel pid title (codes "nodeGraph")
      ((prom_query edges_expr [] (codes "edges") (codes "table") true)
        ∷ (prom_query nodes_expr [] (codes "nodes") (codes "table") true)
        ∷ [])
      (codes "Bps") desc
      ("zoomMode" ⇒ (lit "cooperative")
        ∷ "layoutAlgorithm" ⇒ (lit "layered")
        ∷ "nodes" ⇒ (dict ("mainStatUnit" ⇒ (lit "Bps") ∷ "arcs" ⇒ (list node_arcs) ∷ []))
        ∷ "edges" ⇒ (dict ("mainStatUnit" ⇒ (lit "Bps") ∷ []))
        ∷ [])
      ("thresholds" ⇒ neutral ∷ [])
      ((field_override (codes "id")
          ((dict ("id" ⇒ (lit "links") ∷ "value" ⇒ (list node_links) ∷ [])) ∷ []))
        ∷ [])
      ((organize (some noise_columns) (some ("Value" ⇒ (lit "mainstat") ∷ [])) none) ∷ []) []

abbrev pub weak_links : Text
weak_links =
    codes "count("
    ++ selector edge_metric (codes "id=~\"assoc:.+\", color=\"red\"")
    ++ codes ") or vector(0)"
