-- ===== src/Dashboard/Clients/Base.antt =====
-- The constants and helpers of scripts/build_openwrt_clients_dashboard.py.
use openwrt_grafana_monitor.Prelude.{List, [], suc, zero, ℕ, ◌++◌, ◌∷◌}
use openwrt_grafana_monitor.Text.{Text, codes, lower}
use openwrt_grafana_monitor.Dashboard.Json.{Json, dict, list, lit, str, ◌⇒◌}
use openwrt_grafana_monitor.Dashboard.Styles.{prom_filter}

abbrev pub client_filter : Text
client_filter =
    prom_filter ++ codes ", connection=~\"$connection\", network=~\"$network\", mac=~\"$mac\""

abbrev pub wifi_client_filter : Text
wifi_client_filter =
    prom_filter ++ codes ", connection=\"wifi\", network=~\"$network\", mac=~\"$mac\""

-- One `label_replace` of `lowercase_mac_label`, which turns one capital to a small letter.
abbrev lower_step : Text → Text → Text → Text → Text
lower_step label upper lower lowered =
    codes "label_replace("
    ++ (lowered
        ++ (codes ", \""
            ++ (label
                ++ (codes "\", \"${1}"
                    ++ (lower
                        ++ (codes "${2}\", \""
                            ++ (label
                                ++ (codes "\", \"([^"
                                    ++ (upper
                                        ++ (codes "]*)" ++ (upper ++ codes "(.*)\")")))))))))))

-- `for _ in range(n)`
unfoldable pub lower_times : ℕ → Text → Text → Text → Text → Text
lower_times zero label upper lower lowered = lowered
lower_times (suc n) label upper lower lowered =
    lower_times n label upper lower (lower_step label upper lower lowered)

abbrev hex_letters : List (Text × Text)
hex_letters =
    (codes "A", codes "a")
    ∷ (codes "B", codes "b")
    ∷ (codes "C", codes "c")
    ∷ (codes "D", codes "d")
    ∷ (codes "E", codes "e")
    ∷ (codes "F", codes "f")
    ∷ []

unfoldable pub lower_letters : List (Text × Text) → Text → Text → Text
unfolding lower_times
lower_letters [] label lowered = lowered
lower_letters ((upper, lower) ∷ rest) label lowered =
    lower_letters rest label (lower_times 12 label upper lower lowered)

unfoldable pub lowercase_mac_label : Text → Text → Text
unfolding lower_letters
lowercase_mac_label expr label = lower_letters hex_letters label expr

abbrev pub hostapd_signal : Text
hostapd_signal =
    lowercase_mac_label
      (codes "label_replace(hostapd_station_signal_dbm{"
        ++ (prom_filter ++ codes "}, \"mac\", \"$1\", \"station\", \"(.+)\")"))
      (codes "mac")

abbrev pub client_wifi_signal : Text
client_wifi_signal =
    lowercase_mac_label (codes "wifi_station_signal_dbm{" ++ (prom_filter ++ codes "}"))
      (codes "mac")

abbrev pub client_wifi_signal_raw : Text
client_wifi_signal_raw =
    hostapd_signal
    ++ (codes " or ("
        ++ (client_wifi_signal
            ++ (codes " unless on(job, router) " ++ (hostapd_signal ++ codes ")"))))

abbrev pub wifi_signal_by_mac : Text
wifi_signal_by_mac = codes "max by(mac) (" ++ (client_wifi_signal_raw ++ codes ")")

abbrev pub flow_offload_enabled : Text
flow_offload_enabled =
    codes "(max(openwrt_flow_offload_enabled{" ++ (prom_filter ++ codes "}) == 1)")

abbrev pub traffic_available : Text
traffic_available =
    codes "(max(openwrt_client_traffic_collector_available{"
    ++ (prom_filter ++ codes "}) or vector(0))")

abbrev pub traffic_accounting_state : Text
traffic_accounting_state =
    codes "((("
    ++ (traffic_available
        ++ (codes " == 1) unless on() "
            ++ (flow_offload_enabled
                ++ (codes ") * 0 + 1) or ("
                    ++ (flow_offload_enabled ++ codes " * 0 + 2) or vector(0)")))))

abbrev pub conntrack_available : Text
conntrack_available =
    codes "(max(openwrt_client_conntrack_collector_available{"
    ++ (prom_filter ++ codes "}) or vector(0))")

abbrev pub conntrack_state : Text
conntrack_state =
    codes "((("
    ++ (conntrack_available
        ++ (codes " == 1) unless on() "
            ++ (flow_offload_enabled
                ++ (codes ") * 0 + 1) or ("
                    ++ (flow_offload_enabled ++ codes " * 0 + 2) or vector(0)")))))

abbrev pub assoc_events_available : Text
assoc_events_available =
    codes "(max(openwrt_wifi_assoc_events_collector_available{"
    ++ (prom_filter ++ codes "}) or vector(0))")

unfoldable pub trusted_traffic : Text → Text
trusted_traffic expr = codes "(" ++ (expr ++ (codes ") unless on() " ++ flow_offload_enabled))

unfoldable pub trusted_conntrack : Text → Text
trusted_conntrack expr = codes "(" ++ (expr ++ (codes ") unless on() " ++ flow_offload_enabled))

abbrev pub traffic_in : Text
traffic_in = trusted_traffic (
    codes "sum by(mac) (rate(openwrt_client_bytes_total{"
    ++ (prom_filter ++ codes ", direction=\"in\"}[$__rate_interval]))"))

abbrev pub traffic_out : Text
traffic_out = trusted_traffic (
    codes "sum by(mac) (rate(openwrt_client_bytes_total{"
    ++ (prom_filter ++ codes ", direction=\"out\"}[$__rate_interval]))"))

abbrev pub traffic_service : Text
traffic_service = trusted_traffic (
    codes "sum by(service, direction) (rate(openwrt_client_bytes_total{"
    ++ (prom_filter ++ codes "}[$__rate_interval]))"))

unfoldable pub field_override : Text → List Json → Json
field_override name properties = dict (
    "matcher" ⇒ dict ("id" ⇒ lit "byName" ∷ "options" ⇒ str name ∷ [])
    ∷ "properties" ⇒ list properties
    ∷ [])

unfoldable pub regexp_override : Text → List Json → Json
regexp_override pattern_text properties = dict (
    "matcher" ⇒ dict ("id" ⇒ lit "byRegexp" ∷ "options" ⇒ str pattern_text ∷ [])
    ∷ "properties" ⇒ list properties
    ∷ [])

unfoldable pub availability_expr : Text → Text → Text
availability_expr metric_name [] =
    codes "max(" ++ (metric_name ++ (codes "{" ++ (prom_filter ++ codes "}) or vector(0)")))
availability_expr metric_name (c ∷ cs) =
    let collector = c ∷ cs in
    codes "(max("
    ++ (metric_name
        ++ (codes "{"
            ++ (prom_filter
                ++ (codes "}) * max(node_scrape_collector_success{"
                    ++ (prom_filter
                        ++ (codes ", collector=\""
                            ++ (collector ++ codes "\"})) or vector(0)")))))))
