-- ===== src/Dashboard/Operations/Tests.antt =====
-- The operations dashboard is put together.
use openwrt_grafana_monitor.Prelude.{List, [], refl, some, true, ◌∷◌, ◌≡◌}
use openwrt_grafana_monitor.Text.{Text, codes, elem, text_eq}
use openwrt_grafana_monitor.Dashboard.Assemble.Refs.{assemble-refs_match}
use openwrt_grafana_monitor.Dashboard.Validate.{no_repeat, refs_match, texts_of}
use openwrt_grafana_monitor.Dashboard.Builder.{Builder, empty_builder, tabs_layout, text_panel}
use openwrt_grafana_monitor.Dashboard.Walk.{layout_refs}
use openwrt_grafana_monitor.Dashboard.Operations.Optionals.{optional_tiles}
use openwrt_grafana_monitor.Dashboard.Panels.Tables.{logs_panel, piechart, table}
use openwrt_grafana_monitor.Dashboard.Panels.Values.{bargauge, gauge, loki_stat, stat}
use openwrt_grafana_monitor.Dashboard.Operations.Overview.{overview_panels}
use openwrt_grafana_monitor.Dashboard.Operations.Wan.{wan_panels}
use openwrt_grafana_monitor.Dashboard.Operations.Wifi.{wifi_panels}
use openwrt_grafana_monitor.Dashboard.Operations.Lan.{lan_panels}
use openwrt_grafana_monitor.Dashboard.Operations.ClientsFirst.{clients_panels_first}
use openwrt_grafana_monitor.Dashboard.Operations.ClientsSecond.{clients_panels_second}
use openwrt_grafana_monitor.Dashboard.Operations.Dns.{dns_panels}
use openwrt_grafana_monitor.Dashboard.Operations.HealthFirst.{health_panels_first}
use openwrt_grafana_monitor.Dashboard.Operations.HealthSecond.{health_panels_second}
use openwrt_grafana_monitor.Dashboard.Operations.HealthThird.{health_panels_third}
use openwrt_grafana_monitor.Dashboard.Operations.LogsFirst.{logs_panels_first}
use openwrt_grafana_monitor.Dashboard.Operations.LogsSecond.{logs_panels_second}
use openwrt_grafana_monitor.Dashboard.Operations.Introduction.{opt_introduction}
use openwrt_grafana_monitor.Dashboard.Operations.OptionalFirst.{opt_panels_first}
use openwrt_grafana_monitor.Dashboard.Operations.OptionalSecond.{opt_panels_second}
use openwrt_grafana_monitor.Dashboard.Validate.Refs.{keys_of}
use openwrt_grafana_monitor.Dashboard.Assemble.{Placement, assemble}
use openwrt_grafana_monitor.Dashboard.Json.{Json}
use openwrt_grafana_monitor.Dashboard.Panels.Base.{panel, panel_key}
use openwrt_grafana_monitor.Dashboard.Styles.{threshold_for}
use openwrt_grafana_monitor.Dashboard.Panels.Series.{timeseries}
use openwrt_grafana_monitor.Dashboard.Operations.Whole.{contents}
use openwrt_grafana_monitor.Dashboard.Assemble.Total.{assemble-builds, keys_in, panel_keys}

abbrev all_keys : List Text
all_keys = panel_keys (
    1 ∷ 2 ∷ 3 ∷ 4 ∷ 5 ∷ 6 ∷ 7 ∷ 8 ∷ 9 ∷ 10 ∷ 100 ∷ 101 ∷ 102 ∷ 103 ∷ 104 ∷ 109 ∷ 105 ∷ 106 ∷ 107
    ∷ 108 ∷ 200 ∷ 201 ∷ 202 ∷ 203 ∷ 204 ∷ 205 ∷ 206 ∷ 207 ∷ 208 ∷ 300 ∷ 301 ∷ 302 ∷ 303 ∷ 304 ∷ 305
    ∷ 306 ∷ 307 ∷ 308 ∷ 309 ∷ 310 ∷ 800 ∷ 801 ∷ 802 ∷ 803 ∷ 804 ∷ 805 ∷ 806 ∷ 807 ∷ 808 ∷ 809 ∷ 811
    ∷ 812 ∷ 700 ∷ 701 ∷ 702 ∷ 703 ∷ 704 ∷ 705 ∷ 706 ∷ 707 ∷ 708 ∷ 709 ∷ 710 ∷ 400 ∷ 401 ∷ 402 ∷ 403
    ∷ 404 ∷ 405 ∷ 406 ∷ 407 ∷ 408 ∷ 409 ∷ 410 ∷ 411 ∷ 412 ∷ 413 ∷ 414 ∷ 415 ∷ 416 ∷ 417 ∷ 418 ∷ 419
    ∷ 420 ∷ 500 ∷ 501 ∷ 502 ∷ 503 ∷ 504 ∷ 505 ∷ 506 ∷ 507 ∷ 508 ∷ 509 ∷ 510 ∷ 511 ∷ 512 ∷ 600 ∷ 601
    ∷ 602 ∷ 603 ∷ 604 ∷ 605 ∷ 606 ∷ 607 ∷ 608 ∷ 613 ∷ 609 ∷ 610 ∷ 611 ∷ 614 ∷ 615 ∷ 616 ∷ 617 ∷ 618
    ∷ 612 ∷ [])

contents_keys : keys_in contents ≡ some all_keys
unfolding keys_in contents codes panel threshold_for text_eq stat loki_stat bargauge gauge
    timeseries table piechart logs_panel text_panel optional_tiles overview_panels wan_panels
    wifi_panels lan_panels clients_panels_first clients_panels_second dns_panels health_panels_first
    health_panels_second health_panels_third logs_panels_first logs_panels_second opt_introduction
    opt_panels_first opt_panels_second
contents_keys = refl

keys_once : no_repeat all_keys ≡ true
unfolding elem panel_key codes
keys_once = refl

operations_built :
    (r : Builder × List Json) × (assemble empty_builder [] contents ≡ some r)
    × (keys_of r.0.elements ≡ all_keys)
operations_built = assemble-builds contents all_keys contents_keys keys_once

abbrev overview_only : List (Text × List Placement)
overview_only = (codes "Overview", overview_panels) ∷ []

abbrev overview_keys : List Text
overview_keys = panel_keys (1 ∷ 2 ∷ 3 ∷ 4 ∷ 5 ∷ 6 ∷ 7 ∷ 8 ∷ 9 ∷ 10 ∷ [])

overview_built_example :
    (r : Builder × List Json) × (assemble empty_builder [] overview_only ≡ some r)
    × (keys_of r.0.elements ≡ overview_keys)
unfolding keys_in overview_panels codes stat timeseries threshold_for text_eq panel
overview_built_example = assemble-builds overview_only overview_keys refl refl

operations_refs_example :
    (refs : List Text) × (texts_of (layout_refs (tabs_layout operations_built.0.1)) ≡ some refs)
    × (refs ≡ keys_of operations_built.0.0.elements)
    × (refs_match refs (keys_of operations_built.0.0.elements) ≡ true)
operations_refs_example =
    assemble-refs_match contents operations_built.0.0 operations_built.0.1 operations_built.1
