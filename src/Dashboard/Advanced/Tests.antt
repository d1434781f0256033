-- ===== src/Dashboard/Advanced/Tests.antt =====
-- The advanced dashboard is put together.
use openwrt_grafana_monitor.Prelude.{List, [], refl, some, true, ◌∷◌, ◌≡◌}
use openwrt_grafana_monitor.Text.{Text, codes, elem, text_eq}
use openwrt_grafana_monitor.Dashboard.Builder.{Builder, empty_builder, text_panel}
use openwrt_grafana_monitor.Dashboard.Panels.Tables.{table}
use openwrt_grafana_monitor.Dashboard.Panels.Series.{timeseries}
use openwrt_grafana_monitor.Dashboard.Panels.Values.{bargauge, stat}
use openwrt_grafana_monitor.Dashboard.Validate.Refs.{keys_of}
use openwrt_grafana_monitor.Dashboard.Advanced.Base.{availability}
use openwrt_grafana_monitor.Dashboard.Assemble.{assemble}
use openwrt_grafana_monitor.Dashboard.Json.{Json}
use openwrt_grafana_monitor.Dashboard.Styles.{threshold_for}
use openwrt_grafana_monitor.Dashboard.Validate.{no_repeat}
use openwrt_grafana_monitor.Dashboard.Panels.Base.{panel, panel_key}
use openwrt_grafana_monitor.Dashboard.Assemble.Total.{assemble-builds, keys_in, panel_keys}
use openwrt_grafana_monitor.Dashboard.Advanced.Whole.{contents}
use openwrt_grafana_monitor.Dashboard.Advanced.Overview.{advanced_overview}
use openwrt_grafana_monitor.Dashboard.Advanced.Traffic.{advanced_traffic}
use openwrt_grafana_monitor.Dashboard.Advanced.Wifi.{advanced_wifi}
use openwrt_grafana_monitor.Dashboard.Advanced.DpiFirst.{advanced_dpi_first}
use openwrt_grafana_monitor.Dashboard.Advanced.DpiSecond.{advanced_dpi_second}

abbrev advanced_keys : List Text
advanced_keys = panel_keys (
    1 ∷ 2 ∷ 3 ∷ 4 ∷ 5 ∷ 6 ∷ 7 ∷ 8 ∷ 9 ∷ 100 ∷ 101 ∷ 102 ∷ 103 ∷ 104 ∷ 105 ∷ 106 ∷ 107 ∷ 200 ∷ 201
    ∷ 202 ∷ 203 ∷ 204 ∷ 205 ∷ 206 ∷ 207 ∷ 208 ∷ 209 ∷ 300 ∷ 301 ∷ 302 ∷ 303 ∷ 304 ∷ 305 ∷ 306 ∷ 307
    ∷ 308 ∷ 309 ∷ 310 ∷ 311 ∷ 312 ∷ [])

contents_keys : keys_in contents ≡ some advanced_keys
unfolding keys_in contents codes panel threshold_for text_eq advanced_overview advanced_traffic
    advanced_wifi advanced_dpi_first advanced_dpi_second availability stat bargauge timeseries table
    text_panel
contents_keys = refl

keys_once : no_repeat advanced_keys ≡ true
unfolding elem panel_key codes
keys_once = refl

advanced_built :
    (r : Builder × List Json) × (assemble empty_builder [] contents ≡ some r)
    × (keys_of r.0.elements ≡ advanced_keys)
advanced_built = assemble-builds contents advanced_keys contents_keys keys_once
