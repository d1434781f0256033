-- ===== src/Dashboard/Clients/Tests.antt =====
-- The clients dashboard is put together.
use openwrt_grafana_monitor.Prelude.{List, [], refl, some, true, ◌∷◌, ◌≡◌}
use openwrt_grafana_monitor.Text.{Text, codes, elem, text_eq}
use openwrt_grafana_monitor.Dashboard.Builder.{Builder, empty_builder, text_panel}
use openwrt_grafana_monitor.Dashboard.Panels.Tables.{logs_panel, table}
use openwrt_grafana_monitor.Dashboard.Panels.Series.{timeseries}
use openwrt_grafana_monitor.Dashboard.Panels.Values.{bargauge, loki_stat, stat}
use openwrt_grafana_monitor.Dashboard.Validate.Refs.{keys_of}
use openwrt_grafana_monitor.Dashboard.Assemble.{assemble}
use openwrt_grafana_monitor.Dashboard.Json.{Json}
use openwrt_grafana_monitor.Dashboard.Styles.{threshold_for}
use openwrt_grafana_monitor.Dashboard.Validate.{no_repeat}
use openwrt_grafana_monitor.Dashboard.Panels.Base.{panel, panel_key}
use openwrt_grafana_monitor.Dashboard.Assemble.Total.{assemble-builds, keys_in, panel_keys}
use openwrt_grafana_monitor.Dashboard.Clients.Whole.{contents}
use openwrt_grafana_monitor.Dashboard.Clients.Overview.{client_overview}
use openwrt_grafana_monitor.Dashboard.Clients.Inventory.{client_clients}
use openwrt_grafana_monitor.Dashboard.Clients.Traffic.{client_traffic}
use openwrt_grafana_monitor.Dashboard.Clients.Quality.{client_quality}
use openwrt_grafana_monitor.Dashboard.Clients.Roaming.{client_roaming}

abbrev clients_keys : List Text
clients_keys = panel_keys (
    1 ∷ 2 ∷ 3 ∷ 4 ∷ 5 ∷ 6 ∷ 11 ∷ 7 ∷ 8 ∷ 9 ∷ 10 ∷ 100 ∷ 101 ∷ 102 ∷ 103 ∷ 104 ∷ 105 ∷ 200 ∷ 201
    ∷ 202 ∷ 203 ∷ 205 ∷ 206 ∷ 207 ∷ 300 ∷ 301 ∷ 302 ∷ 303 ∷ 304 ∷ 305 ∷ 306 ∷ 307 ∷ 308 ∷ 309 ∷ 400
    ∷ 401 ∷ 402 ∷ 403 ∷ 404 ∷ [])

contents_keys : keys_in contents ≡ some clients_keys
unfolding keys_in contents codes panel threshold_for text_eq client_overview client_clients
    client_traffic client_quality client_roaming stat loki_stat bargauge timeseries table logs_panel
    text_panel
contents_keys = refl

keys_once : no_repeat clients_keys ≡ true
unfolding elem panel_key codes
keys_once = refl

clients_built :
    (r : Builder × List Json) × (assemble empty_builder [] contents ≡ some r)
    × (keys_of r.0.elements ≡ clients_keys)
clients_built = assemble-builds contents clients_keys contents_keys keys_once
