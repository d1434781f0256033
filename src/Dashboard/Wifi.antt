-- ===== src/Dashboard/Wifi.antt =====
-- The queries on WiFi stations of scripts/build_openwrt_operations_dashboard.py.
use openwrt_grafana_monitor.Prelude.{◌++◌}
use openwrt_grafana_monitor.Text.{Text, codes}
use openwrt_grafana_monitor.Dashboard.Styles.{prom_filter}

unfoldable pub wifi_station_label_expr : Text → Text
wifi_station_label_expr expr =
    codes "label_replace(label_replace("
    ++ (expr
        ++ codes
            ", \"station\", \"$1\", \"mac\", \"(.+)\"), \"vif\", \"$1\", \"ifname\", \"(.+)\")")

unfoldable pub wifi_station_fallback_expr : Text → Text → Text
unfolding wifi_station_label_expr
wifi_station_fallback_expr hostapd_metric wifi_metric =
    let hostapd = hostapd_metric ++ (codes "{" ++ (prom_filter ++ codes "}")) in
    let wifi = wifi_station_label_expr (wifi_metric ++ (codes "{" ++ (prom_filter ++ codes "}"))) in
    hostapd
    ++ (codes " or (" ++ (wifi ++ (codes " unless on(job, router) " ++ (hostapd ++ codes ")"))))

unfoldable pub wifi_station_rate_bps_expr : Text → Text → Text → Text
unfolding wifi_station_label_expr
wifi_station_rate_bps_expr hostapd_metric wifi_bytes_metric wifi_kbits_metric =
    let hostapd =
      codes "rate("
      ++ (hostapd_metric ++ (codes "{" ++ (prom_filter ++ codes "}[$__rate_interval]) * 8"))) in
    let wifi_bytes = wifi_station_label_expr (
      codes "rate("
      ++ (wifi_bytes_metric ++ (codes "{" ++ (prom_filter ++ codes "}[$__rate_interval]) * 8")))) in
    let wifi_kbits =
      wifi_station_label_expr
        (wifi_kbits_metric ++ (codes "{" ++ (prom_filter ++ codes "} * 1000"))) in
    let byte_sources = codes "(" ++ (hostapd ++ (codes " or " ++ (wifi_bytes ++ codes ")"))) in
    hostapd
    ++ (codes " or ("
        ++ (wifi_bytes
            ++ (codes " unless on(job, router) "
                ++ (hostapd
                    ++ (codes ") or ("
                        ++ (wifi_kbits
                            ++ (codes " unless on(job, router) "
                                ++ (byte_sources ++ codes ")"))))))))

abbrev pub wifi_signal_raw : Text
wifi_signal_raw =
    wifi_station_fallback_expr (codes "hostapd_station_signal_dbm")
      (codes "wifi_station_signal_dbm")

abbrev pub wifi_signal : Text
wifi_signal = codes "max by(station, vif) (" ++ (wifi_signal_raw ++ codes ")")

abbrev pub wifi_rx_bps_raw : Text
wifi_rx_bps_raw =
    wifi_station_rate_bps_expr (codes "hostapd_station_receive_bytes_total")
      (codes "wifi_station_receive_bytes_total") (codes "wifi_station_receive_kilobits_per_second")

abbrev pub wifi_rx_bps : Text
wifi_rx_bps = codes "sum by(station, vif) (" ++ (wifi_rx_bps_raw ++ codes ")")

abbrev pub wifi_tx_bps_raw : Text
wifi_tx_bps_raw =
    wifi_station_rate_bps_expr (codes "hostapd_station_transmit_bytes_total")
      (codes "wifi_station_transmit_bytes_total")
      (codes "wifi_station_transmit_kilobits_per_second")

abbrev pub wifi_tx_bps : Text
wifi_tx_bps = codes "sum by(station, vif) (" ++ (wifi_tx_bps_raw ++ codes ")")

abbrev pub wifi_inactive_raw : Text
wifi_inactive_raw =
    codes "hostapd_station_inactive_seconds{"
    ++ (prom_filter
        ++ (codes "} or ("
            ++ (wifi_station_label_expr
                  (codes "wifi_station_inactive_milliseconds{" ++ (prom_filter ++ codes "} / 1000"))
                ++ (codes " unless on(job, router) hostapd_station_inactive_seconds{"
                    ++ (prom_filter ++ codes "})")))))

abbrev pub wifi_inactive : Text
wifi_inactive = codes "max by(station, vif) (" ++ (wifi_inactive_raw ++ codes ")")

abbrev pub wifi_connected_raw : Text
wifi_connected_raw =
    codes "hostapd_station_connected_seconds_total{"
    ++ (prom_filter
        ++ (codes "} or (openwrt_wifi_station_connected_seconds{"
            ++ (prom_filter
                ++ (codes "} unless on(job, router) hostapd_station_connected_seconds_total{"
                    ++ (prom_filter ++ codes "})")))))

abbrev pub wifi_connected : Text
wifi_connected = codes "max by(station, vif) (" ++ (wifi_connected_raw ++ codes ")")

abbrev pub wifi_client_count : Text
wifi_client_count =
    codes "sum by(vif) (count by(job, router, vif) (hostapd_station_signal_dbm{"
    ++ (prom_filter
        ++ (codes "}) or (label_replace(wifi_stations{"
            ++ (prom_filter
                ++ (codes
                      "}, \"vif\", \"$1\", \"ifname\", \"(.+)\") unless on(job, router) hostapd_station_signal_dbm{"
                    ++ (prom_filter ++ codes "}))")))))

abbrev pub cron_cmd_filter : Text
cron_cmd_filter = codes "!~ \"^USER [^ ]+ pid [0-9]+ cmd \""
