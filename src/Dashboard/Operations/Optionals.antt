-- ===== src/Dashboard/Operations/Optionals.antt =====
-- The row of optional collectors in `build_dashboard`.
use openwrt_grafana_monitor.Prelude.{List, [], false, none, pos, some, ℕ, ℤ, ◌*◌, ◌++◌, ◌+◌, ◌∷◌}
use openwrt_grafana_monitor.Text.{Text, codes}
use openwrt_grafana_monitor.Dashboard.Styles.Mappings.{availability_mappings}
use openwrt_grafana_monitor.Dashboard.Panels.Values.{stat}
use openwrt_grafana_monitor.Dashboard.Assemble.{Placement, on_grid}
use openwrt_grafana_monitor.Dashboard.Styles.{prom_filter}

abbrev pub optionals : List (ℤ × Text × Text)
optionals =
    (
      pos 601,
      codes "mwan3",
      codes "max(present_over_time(mwan3_interface_up{"
          ++ (prom_filter ++ codes "}[$__range])) or vector(0)"),
    )
    ∷ (
      pos 602,
      codes "SQM / Cake",
      codes "max(openwrt_tc_available{" ++ (prom_filter ++ codes "}) or vector(0)"),
    )
    ∷ (
      pos 603,
      codes "nftables",
      codes "max(present_over_time(nft_counter_packets{"
          ++ (prom_filter ++ codes "}[$__range])) or vector(0)"),
    )
    ∷ (
      pos 604,
      codes "IPv6 snmp6",
      codes "max(present_over_time(snmp6_Ip6InReceives{"
          ++ (prom_filter ++ codes "}[$__range])) or vector(0)"),
    )
    ∷ (
      pos 605,
      codes "Tailscale",
      codes "max(present_over_time(node_network_receive_bytes_total{"
          ++ (prom_filter ++ codes ", device=\"$vpn_interface\"}[$__range])) or vector(0)"),
    )
    ∷ (
      pos 606,
      codes "WiFi Optional",
      codes "max(present_over_time(wifi_network_quality{"
          ++ (prom_filter ++ codes "}[$__range])) or vector(0)"),
    )
    ∷ []

-- The loop, from its `i` on.
unfoldable pub optional_tiles : ℕ → List (ℤ × Text × Text) → List Placement
optional_tiles i [] = []
optional_tiles i ((pid, title, expr) ∷ rest) =
    on_grid
      (stat pid title expr (codes "none")
        (codes "Availability of optional " ++ (title ++ codes " metrics in the selected range.")) []
        (codes "unavailable") (some availability_mappings) false none (codes "value")
        (codes "Unavailable"))
      (i * 4) 3 4 3
    ∷ optional_tiles (i + 1) rest
