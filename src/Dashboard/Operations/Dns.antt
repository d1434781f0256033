-- ===== src/Dashboard/Operations/Dns.antt =====
-- Panels of the tab "DNS & DHCP" of `build_dashboard`, scripts/build_openwrt_operations_dashboard.py.
use openwrt_grafana_monitor.Prelude.{List, [], false, none, pos, some, true, ◌++◌, ◌∷◌}
use openwrt_grafana_monitor.Text.{codes}
use openwrt_grafana_monitor.Dashboard.Styles.{
  blue, color_override, green, orange, prom_filter, purple, red, thresholds,
}
use openwrt_grafana_monitor.Dashboard.Json.{dict, list, lit, number, ◌⇒◌}
use openwrt_grafana_monitor.Dashboard.Queries.{organize, prom_query, tf}
use openwrt_grafana_monitor.Dashboard.Panels.Tables.{table}
use openwrt_grafana_monitor.Dashboard.Panels.Values.{bargauge, stat}
use openwrt_grafana_monitor.Dashboard.Panels.Series.{timeseries}
use openwrt_grafana_monitor.Dashboard.Builder.{text_panel}
use openwrt_grafana_monitor.Dashboard.Assemble.{Placement, on_grid}

unfoldable pub dns_panels : List Placement
dns_panels =
    on_grid
      (some (
        text_panel (pos 700) [] (
          codes
            "## DNS & DHCP\ndnsmasq resolver and DHCP server health. Cache hit ratio, query mix, DHCP handshake, and pool pressure. All counters are rate-converted; leases and pool sizes are gauges.")))
      0 0 24 3
    ∷ on_grid
        (stat (pos 701) (codes "DNS Cache Hit Ratio")
          (codes "sum(rate(dnsmasq_dns_local_answered{"
            ++ (prom_filter
                ++ (codes "}[$__rate_interval])) / clamp_min(sum(rate(dnsmasq_dns_local_answered{"
                    ++ (prom_filter
                        ++ (codes "}[$__rate_interval]) + rate(dnsmasq_dns_queries_forwarded{"
                            ++ (prom_filter ++ codes "}[$__rate_interval])), 1)"))))))
          (codes "percentunit")
          (codes
            "Share of DNS queries answered locally from cache versus forwarded upstream. Higher is faster resolution; a sustained low ratio suggests cache pressure or many unique lookups.")
          [] (codes "neutral") none true (some (number 1)) (codes "value") (codes "Unavailable"))
        0 3 6 4
    ∷ on_grid
        (stat (pos 702) (codes "DNS Queries/sec")
          (codes "sum(rate(dnsmasq_dns_local_answered{"
            ++ (prom_filter
                ++ (codes "}[$__rate_interval]) + rate(dnsmasq_dns_queries_forwarded{"
                    ++ (prom_filter ++ codes "}[$__rate_interval])) or vector(0)"))))
          (codes "reqps") (codes "Total resolver query rate: cache hits plus upstream forwards.") []
          (codes "neutral") none true none (codes "value") (codes "Unavailable"))
        6 3 6 4
    ∷ on_grid
        (stat (pos 703) (codes "DHCP Pool Used")
          (codes "max(openwrt_dhcp_pool_utilization_percent{"
            ++ (prom_filter ++ codes "}) or vector(0)"))
          (codes "percent")
          (codes
            "Highest DHCP pool utilization across configured interfaces. Approaching 100% means the address pool is nearly exhausted.")
          [] (codes "capacity_percent") none true none (codes "background_solid")
          (codes "Unavailable"))
        12 3 6 4
    ∷ on_grid
        (stat (pos 704) (codes "DHCPv6 / RA Leases")
          (codes "max(dhcpv6_lease_count{" ++ (prom_filter ++ codes "}) or vector(0)"))
          (codes "none") (codes "Active DHCPv6/RA leases known to odhcpd.") [] (codes "neutral")
          none true none (codes "value") (codes "Unavailable"))
        18 3 6 4
    ∷ on_grid
        (some (
          timeseries (pos 705) (codes "DNS Query Breakdown")
            ((prom_query
                (codes "sum(rate(dnsmasq_dns_local_answered{"
                  ++ (prom_filter ++ codes "}[$__rate_interval]))"))
                (codes "Cache/local answered") (codes "A") (codes "time_series") false)
              ∷ (prom_query
                  (codes "sum(rate(dnsmasq_dns_queries_forwarded{"
                    ++ (prom_filter ++ codes "}[$__rate_interval]))"))
                  (codes "Forwarded upstream") (codes "B") (codes "time_series") false)
              ∷ (prom_query
                  (codes "sum(rate(dnsmasq_dns_auth_answered{"
                    ++ (prom_filter ++ codes "}[$__rate_interval]))"))
                  (codes "Authoritative") (codes "C") (codes "time_series") false)
              ∷ (prom_query
                  (codes "sum(rate(dnsmasq_dns_unanswered{"
                    ++ (prom_filter ++ codes "}[$__rate_interval]))"))
                  (codes "Unanswered") (codes "D") (codes "time_series") false)
              ∷ [])
            (codes "qps")
            (codes
              "Where DNS answers come from. Unanswered climbing usually means an upstream resolver problem.")
            true (pos 30) (codes "linear")
            (some (
              (color_override (codes "Cache/local answered") green)
              ∷ (color_override (codes "Forwarded upstream") blue)
              ∷ (color_override (codes "Authoritative") purple)
              ∷ (color_override (codes "Unanswered") red)
              ∷ []))
            none none (codes "normal") none))
        0 7 12 8
    ∷ on_grid
        (some (
          timeseries (pos 706) (codes "DNS Cache & DNSSEC")
            ((prom_query
                (codes "sum(dnsmasq_dns_cache_inserted{"
                  ++ (prom_filter
                      ++ (codes "} - dnsmasq_dns_cache_live_freed{"
                          ++ (prom_filter ++ codes "})"))))
                (codes "Live cache entries") (codes "A") (codes "time_series") false)
              ∷ (prom_query
                  (codes "sum(rate(dnsmasq_dns_stale_answered{"
                    ++ (prom_filter ++ codes "}[$__rate_interval]))"))
                  (codes "Stale served") (codes "B") (codes "time_series") false)
              ∷ (prom_query
                  (codes "sum(dnsmasq_dnssec_max_sig_fail{" ++ (prom_filter ++ codes "})"))
                  (codes "DNSSEC sig failures") (codes "C") (codes "time_series") false)
              ∷ (prom_query (codes "sum(dnsmasq_tcp_connections{" ++ (prom_filter ++ codes "})"))
                  (codes "TCP connections") (codes "D") (codes "time_series") false)
              ∷ [])
            (codes "none")
            (codes
              "Live cache occupancy, stale-cache serves, DNSSEC signature failures, and DNS-over-TCP connection count.")
            false (pos 15) (codes "linear")
            (some (
              (color_override (codes "DNSSEC sig failures") red)
              ∷ (color_override (codes "Stale served") orange)
              ∷ []))
            none none (codes "normal") none))
        12 7 12 8
    ∷ on_grid
        (some (
          timeseries (pos 707) (codes "DHCP Handshake Rate")
            ((prom_query
                (codes "sum(rate(dnsmasq_dhcp_discover{"
                  ++ (prom_filter ++ codes "}[$__rate_interval]))"))
                (codes "Discover") (codes "A") (codes "time_series") false)
              ∷ (prom_query
                  (codes "sum(rate(dnsmasq_dhcp_offer{"
                    ++ (prom_filter ++ codes "}[$__rate_interval]))"))
                  (codes "Offer") (codes "B") (codes "time_series") false)
              ∷ (prom_query
                  (codes "sum(rate(dnsmasq_dhcp_request{"
                    ++ (prom_filter ++ codes "}[$__rate_interval]))"))
                  (codes "Request") (codes "C") (codes "time_series") false)
              ∷ (prom_query
                  (codes "sum(rate(dnsmasq_dhcp_ack{"
                    ++ (prom_filter ++ codes "}[$__rate_interval]))"))
                  (codes "Ack") (codes "D") (codes "time_series") false)
              ∷ (prom_query
                  (codes "sum(rate(dnsmasq_dhcp_nak{"
                    ++ (prom_filter ++ codes "}[$__rate_interval]))"))
                  (codes "Nak") (codes "E") (codes "time_series") false)
              ∷ (prom_query
                  (codes "sum(rate(dnsmasq_dhcp_decline{"
                    ++ (prom_filter ++ codes "}[$__rate_interval]))"))
                  (codes "Decline") (codes "F") (codes "time_series") false)
              ∷ [])
            (codes "ops")
            (codes
              "DORA handshake rates. A healthy lease is Discover→Offer→Request→Ack. Sustained Nak or Decline points to pool exhaustion or address conflicts.")
            false (pos 15) (codes "linear")
            (some (
              (color_override (codes "Ack") green)
              ∷ (color_override (codes "Nak") red)
              ∷ (color_override (codes "Decline") red)
              ∷ []))
            none none (codes "normal") none))
        0 15 12 8
    ∷ on_grid
        (bargauge (pos 708) (codes "DHCP Pool Utilization by Interface")
          ((prom_query
              (codes "openwrt_dhcp_pool_utilization_percent{" ++ (prom_filter ++ codes "}"))
              (codes "{{interface}}") (codes "A") (codes "time_series") false)
            ∷ [])
          (codes "percent")
          (codes "Per-interface DHCP pool pressure. Bounded to configured interfaces.")
          (codes "capacity_percent") none (some (number 100)) (codes "thresholds") none none false)
        12 15 12 8
    ∷ on_grid
        (some (
          timeseries (pos 709) (codes "DHCP Lease Allocation & Pruning")
            ((prom_query
                (codes "sum(rate(dnsmasq_leases_allocated_4{"
                  ++ (prom_filter ++ codes "}[$__rate_interval]))"))
                (codes "Allocated IPv4") (codes "A") (codes "time_series") false)
              ∷ (prom_query
                  (codes "sum(rate(dnsmasq_leases_allocated_6{"
                    ++ (prom_filter ++ codes "}[$__rate_interval]))"))
                  (codes "Allocated IPv6") (codes "B") (codes "time_series") false)
              ∷ (prom_query
                  (codes "sum(rate(dnsmasq_leases_pruned_4{"
                    ++ (prom_filter ++ codes "}[$__rate_interval]))"))
                  (codes "Pruned IPv4") (codes "C") (codes "time_series") false)
              ∷ (prom_query
                  (codes "sum(rate(dnsmasq_leases_pruned_6{"
                    ++ (prom_filter ++ codes "}[$__rate_interval]))"))
                  (codes "Pruned IPv6") (codes "D") (codes "time_series") false)
              ∷ [])
            (codes "ops")
            (codes "Lease allocation and expiry-pruning rates from dnsmasq, split by IP family.")
            false (pos 15) (codes "linear") none none none (codes "normal") none))
        0 23 12 7
    ∷ on_grid
        (some (
          table (pos 710) (codes "DHCP Pool Capacity")
            ((prom_query (codes "openwrt_dhcp_pool_size{" ++ (prom_filter ++ codes "}")) []
                (codes "A") (codes "table") true)
              ∷ (prom_query (codes "openwrt_dhcp_leases_used{" ++ (prom_filter ++ codes "}")) []
                  (codes "B") (codes "table") true)
              ∷ (prom_query
                  (codes "openwrt_dhcp_pool_utilization_percent{" ++ (prom_filter ++ codes "}")) []
                  (codes "C") (codes "table") true)
              ∷ [])
            (codes
              "Configured pool size, active leases, and utilization per interface, plus static host reservations.")
            (some (
              (tf (codes "merge") none)
              ∷ (organize
                  (some (
                    (codes "Time")
                    ∷ (codes "__name__")
                    ∷ (codes "cluster")
                    ∷ (codes "job")
                    ∷ (codes "router")
                    ∷ (codes "endpoint")
                    ∷ (codes "instance")
                    ∷ (codes "namespace")
                    ∷ (codes "prometheus")
                    ∷ (codes "prometheus_replica")
                    ∷ (codes "service")
                    ∷ []))
                  (some (
                    "interface" ⇒ (lit "Interface")
                    ∷ "Value #A" ⇒ (lit "Pool Size")
                    ∷ "Value #B" ⇒ (lit "Leases Used")
                    ∷ "Value #C" ⇒ (lit "Utilization %")
                    ∷ []))
                  none)
              ∷ []))
            (some (
              (dict (
                "matcher" ⇒ (dict ("id" ⇒ (lit "byName") ∷ "options" ⇒ (lit "Utilization %") ∷ []))
                ∷ "properties" ⇒ (
                    list (
                      (dict ("id" ⇒ (lit "unit") ∷ "value" ⇒ (lit "percent") ∷ []))
                      ∷ (dict (
                          "id" ⇒ (lit "custom.cellOptions")
                          ∷ "value"
                            ⇒ (dict ("type" ⇒ (lit "gauge") ∷ "mode" ⇒ (lit "gradient") ∷ []))
                          ∷ []))
                      ∷ (dict ("id" ⇒ (lit "max") ∷ "value" ⇒ (number 100) ∷ []))
                      ∷ (dict ("id" ⇒ (lit "min") ∷ "value" ⇒ (number 0) ∷ []))
                      ∷ (dict (
                          "id" ⇒ (lit "thresholds")
                          ∷ "value" ⇒ (
                              thresholds (
                                (codes "green", number 0)
                                ∷ (codes "yellow", number 70)
                                ∷ (codes "red", number 90)
                                ∷ []))
                          ∷ []))
                      ∷ []))
                ∷ []))
              ∷ []))
            (some (codes "Interface")) false))
        12 23 12 7
    ∷ []
