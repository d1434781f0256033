-- ===== src/Dashboard/Operations/Lan.antt =====
-- Panels of the tab "LAN, NAT & Devices" of `build_dashboard`, scripts/build_openwrt_operations_dashboard.py.
use openwrt_grafana_monitor.Prelude.{List, [], false, none, pos, some, true, ◌++◌, ◌∷◌}
use openwrt_grafana_monitor.Text.{codes}
use openwrt_grafana_monitor.Dashboard.Queries.{
  clean_table_transforms, organize, prom_query, sort_by, tf,
}
use openwrt_grafana_monitor.Dashboard.Styles.Mappings.{device_state_mappings}
use openwrt_grafana_monitor.Dashboard.Styles.{blue, color_override, gray, green, prom_filter, red}
use openwrt_grafana_monitor.Dashboard.Json.{dict, list, lit, number, str, ◌⇒◌}
use openwrt_grafana_monitor.Dashboard.Panels.Tables.{table}
use openwrt_grafana_monitor.Dashboard.Operations.Rates.{total_rate}
use openwrt_grafana_monitor.Dashboard.Panels.Values.{bargauge, stat}
use openwrt_grafana_monitor.Dashboard.Panels.Series.{timeseries}
use openwrt_grafana_monitor.Dashboard.Builder.{text_panel}
use openwrt_grafana_monitor.Dashboard.Assemble.{Placement, on_grid}

unfoldable pub lan_panels : List Placement
lan_panels =
    on_grid
      (some (
        text_panel (pos 300) [] (
          codes
            "## LAN, NAT & Devices\nDevice state, DHCP leases, interface state, and NAT usage. Zero offline devices must render as 0, not No data.")))
      0 0 24 3
    ∷ on_grid
        (stat (pos 301) (codes "Online Devices")
          (codes "sum(router_device_up{" ++ (prom_filter ++ codes "}) or vector(0)")) (codes "none")
          (codes "Online devices from router_device_up.") [] (codes "neutral") none false none
          (codes "background_solid") (codes "Unavailable"))
        0 3 6 4
    ∷ on_grid
        (stat (pos 302) (codes "Offline Devices")
          (codes "sum(1 - router_device_up{" ++ (prom_filter ++ codes "}) or vector(0)"))
          (codes "none")
          (codes "Known devices currently offline. Zero is an explicit healthy zero.") []
          (codes "ok_bad") none false none (codes "background_solid") (codes "Unavailable"))
        6 3 6 4
    ∷ on_grid
        (stat (pos 303) (codes "DHCP Leases")
          (codes "count(dhcp_lease{" ++ (prom_filter ++ codes "}) or vector(0)")) (codes "none")
          (codes "Active DHCP lease records.") [] (codes "neutral") none false none
          (codes "background_solid") (codes "Unavailable"))
        12 3 6 4
    ∷ on_grid
        (stat (pos 304) (codes "Conntrack Used")
          (codes "max(node_nf_conntrack_entries{"
            ++ (prom_filter
                ++ (codes "} / node_nf_conntrack_entries_limit{"
                    ++ (prom_filter ++ codes "}) or vector(0)"))))
          (codes "percentunit") (codes "NAT/conntrack table utilization.") [] (codes "capacity")
          none false (some (number 1)) (codes "background_solid") (codes "Unavailable"))
        18 3 6 4
    ∷ on_grid
        (some (
          timeseries (pos 305) (codes "LAN Throughput")
            ((prom_query
                (codes "rate(node_network_receive_bytes_total{"
                  ++ (prom_filter ++ codes ", device=\"$lan_interface\"}[$__rate_interval])"))
                (codes "LAN RX") (codes "A") (codes "time_series") false)
              ∷ (prom_query
                  (codes "rate(node_network_transmit_bytes_total{"
                    ++ (prom_filter ++ codes ", device=\"$lan_interface\"}[$__rate_interval])"))
                  (codes "LAN TX") (codes "B") (codes "time_series") false)
              ∷ [])
            (codes "Bps") (codes "Measured LAN bridge throughput.") false (pos 15) (codes "linear")
            (some (
              (color_override (codes "LAN RX") green)
              ∷ (color_override (codes "LAN TX") blue)
              ∷ []))
            none none (codes "normal") none))
        0 7 12 8
    ∷ on_grid
        (some (
          timeseries (pos 306) (codes "Online vs Offline Devices")
            ((prom_query (codes "sum(router_device_up{" ++ (prom_filter ++ codes "}) or vector(0)"))
                (codes "Online") (codes "A") (codes "time_series") false)
              ∷ (prom_query
                  (codes "sum(1 - router_device_up{" ++ (prom_filter ++ codes "}) or vector(0)"))
                  (codes "Offline") (codes "B") (codes "time_series") false)
              ∷ [])
            (codes "none") (codes "Device count trend with explicit zero-preserving offline count.")
            false (pos 15) (codes "stepAfter") none none none (codes "normal") none))
        12 7 12 8
    ∷ on_grid
        (bargauge (pos 307) (codes "Top Devices by Traffic Rate")
          ((prom_query (codes "topk(10, " ++ (total_rate ++ codes ")")) (codes "{{device}}")
              (codes "A") (codes "time_series") false)
            ∷ [])
          (codes "Bps")
          (codes
            "Top 10 LAN clients by current combined upload+download rate, from the traffic profile's nftables counters. Empty rather than wrong when the traffic profile is not installed — see Client Insights for a full breakdown.")
          (codes "neutral") none none (codes "thresholds") none none false)
        0 15 8 8
    ∷ on_grid
        (some (
          table (pos 308) (codes "Network Interface State")
            ((prom_query (codes "node_network_info{" ++ (prom_filter ++ codes "}")) [] (codes "A")
                (codes "table") true)
              ∷ [])
            (codes
              "Current interface facts with MAC/broadcast and scrape plumbing hidden by default.")
            (some (
              (organize
                (some (
                  (codes "Time")
                  ∷ (codes "__name__")
                  ∷ (codes "Value")
                  ∷ (codes "address")
                  ∷ (codes "broadcast")
                  ∷ (codes "cluster")
                  ∷ (codes "endpoint")
                  ∷ (codes "instance")
                  ∷ (codes "job")
                  ∷ (codes "namespace")
                  ∷ (codes "prometheus")
                  ∷ (codes "prometheus_replica")
                  ∷ (codes "router")
                  ∷ (codes "service")
                  ∷ []))
                (some (
                  "device" ⇒ (lit "Interface")
                  ∷ "operstate" ⇒ (lit "State")
                  ∷ "duplex" ⇒ (lit "Duplex")
                  ∷ []))
                (some
                  ("Interface" ⇒ (number 0) ∷ "State" ⇒ (number 1) ∷ "Duplex" ⇒ (number 2) ∷ [])))
              ∷ []))
            (some (
              (dict (
                "matcher" ⇒ (dict ("id" ⇒ (lit "byName") ∷ "options" ⇒ (lit "State") ∷ []))
                ∷ "properties" ⇒ (
                    list (
                      (dict (
                        "id" ⇒ (lit "custom.cellOptions")
                        ∷ "value" ⇒ (dict ("type" ⇒ (lit "color-background") ∷ []))
                        ∷ []))
                      ∷ (dict (
                          "id" ⇒ (lit "mappings")
                          ∷ "value" ⇒ (
                              list (
                                (dict (
                                  "type" ⇒ (lit "value")
                                  ∷ "options" ⇒ (
                                      dict (
                                        "up" ⇒ (
                                          dict (
                                            "color" ⇒ (str green)
                                            ∷ "text" ⇒ (lit "up")
                                            ∷ "index" ⇒ (number 0)
                                            ∷ []))
                                        ∷ "down" ⇒ (
                                            dict (
                                              "color" ⇒ (str red)
                                              ∷ "text" ⇒ (lit "down")
                                              ∷ "index" ⇒ (number 1)
                                              ∷ []))
                                        ∷ "unknown" ⇒ (
                                            dict (
                                              "color" ⇒ (str gray)
                                              ∷ "text" ⇒ (lit "unknown")
                                              ∷ "index" ⇒ (number 2)
                                              ∷ []))
                                        ∷ "lowerlayerdown" ⇒ (
                                            dict (
                                              "color" ⇒ (str gray)
                                              ∷ "text" ⇒ (lit "no cable")
                                              ∷ "index" ⇒ (number 3)
                                              ∷ []))
                                        ∷ []))
                                  ∷ []))
                                ∷ []))
                          ∷ []))
                      ∷ []))
                ∷ []))
              ∷ []))
            (some (codes "Interface")) false))
        8 15 16 8
    ∷ on_grid
        (some (
          table (pos 309) (codes "All Devices")
            ((prom_query (codes "router_device_up{" ++ (prom_filter ++ codes "}")) [] (codes "A")
                (codes "table") true)
              ∷ [])
            (codes
              "All known devices with online state, hostname/IP/MAC, and no collector plumbing.")
            (some (
              clean_table_transforms
                ("device" ⇒ (lit "Hostname")
                  ∷ "status" ⇒ (lit "Status")
                  ∷ "mac" ⇒ (lit "MAC")
                  ∷ "ip" ⇒ (lit "IP")
                  ∷ "Value" ⇒ (lit "Online")
                  ∷ [])
                ((codes "Hostname")
                  ∷ (codes "Status")
                  ∷ (codes "IP")
                  ∷ (codes "MAC")
                  ∷ (codes "Online")
                  ∷ [])))
            (some (
              (dict (
                "matcher" ⇒ (dict ("id" ⇒ (lit "byName") ∷ "options" ⇒ (lit "Online") ∷ []))
                ∷ "properties" ⇒ (
                    list (
                      (dict (
                        "id" ⇒ (lit "custom.cellOptions")
                        ∷ "value" ⇒ (dict ("type" ⇒ (lit "color-background") ∷ []))
                        ∷ []))
                      ∷ (dict
                          ("id" ⇒ (lit "mappings") ∷ "value" ⇒ (list device_state_mappings) ∷ []))
                      ∷ []))
                ∷ []))
              ∷ []))
            (some (codes "Online")) true))
        0 23 24 10
    ∷ on_grid
        (some (
          table (pos 310) (codes "DHCP Lease Expiry")
            ((prom_query (codes "(dhcp_lease{" ++ (prom_filter ++ codes "} > 0) * 1000")) []
                (codes "A") (codes "table") true)
              ∷ (prom_query
                  (codes "clamp_min((dhcp_lease{" ++ (prom_filter ++ codes "} > 0) - time(), 0)"))
                  [] (codes "B") (codes "table") true)
              ∷ [])
            (codes
              "Expiring DHCP leases only. Static/infinite leases exported as 0 are omitted so they do not render as impossible negative durations.")
            (some (
              (tf (codes "merge") none)
              ∷ (organize
                  (some (
                    (codes "Time")
                    ∷ (codes "__name__")
                    ∷ (codes "cluster")
                    ∷ (codes "job")
                    ∷ (codes "router")
                    ∷ (codes "endpoint")
                    ∷ (codes "instance")
                    ∷ (codes "namespace")
                    ∷ (codes "prometheus")
                    ∷ (codes "prometheus_replica")
                    ∷ (codes "service")
                    ∷ (codes "dnsmasq")
                    ∷ (codes "Value")
                    ∷ []))
                  (some (
                    "hostname" ⇒ (lit "Hostname")
                    ∷ "mac" ⇒ (lit "MAC")
                    ∷ "ip" ⇒ (lit "IP")
                    ∷ "Value #A" ⇒ (lit "Lease Expires")
                    ∷ "Value #B" ⇒ (lit "Remaining Seconds")
                    ∷ []))
                  none)
              ∷ (sort_by (codes "Remaining Seconds") false)
              ∷ []))
            (some (
              (dict (
                "matcher" ⇒ (dict ("id" ⇒ (lit "byName") ∷ "options" ⇒ (lit "Lease Expires") ∷ []))
                ∷ "properties" ⇒ (
                    list ((dict ("id" ⇒ (lit "unit") ∷ "value" ⇒ (lit "dateTimeAsIso") ∷ [])) ∷ []))
                ∷ []))
              ∷ (dict (
                  "matcher"
                    ⇒ (dict ("id" ⇒ (lit "byName") ∷ "options" ⇒ (lit "Remaining Seconds") ∷ []))
                  ∷ "properties"
                    ⇒ (list ((dict ("id" ⇒ (lit "unit") ∷ "value" ⇒ (lit "s") ∷ [])) ∷ []))
                  ∷ []))
              ∷ []))
            (some (codes "Remaining Seconds")) false))
        0 33 24 10
    ∷ []
