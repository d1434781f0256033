-- ===== src/Dashboard/Operations/Rates.antt =====
-- The rates per device in `build_dashboard`.
use openwrt_grafana_monitor.Prelude.{◌++◌}
use openwrt_grafana_monitor.Text.{Text, codes}
use openwrt_grafana_monitor.Dashboard.Styles.{prom_filter}

abbrev pub dl : Text
dl =
    codes "sum by(device) (rate(openwrt_device_traffic_bytes_total{"
    ++ (prom_filter ++ codes ", direction=\"download\"}[$__rate_interval]))")

abbrev pub ul : Text
ul =
    codes "sum by(device) (rate(openwrt_device_traffic_bytes_total{"
    ++ (prom_filter ++ codes ", direction=\"upload\"}[$__rate_interval]))")

abbrev pub total_rate : Text
total_rate =
    codes "sum by(device) (rate(openwrt_device_traffic_bytes_total{"
    ++ (prom_filter ++ codes "}[$__rate_interval]))")
