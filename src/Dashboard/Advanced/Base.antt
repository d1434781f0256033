-- ===== src/Dashboard/Advanced/Base.antt =====
-- The constants and helpers of scripts/build_openwrt_advanced_dashboard.py.
use openwrt_grafana_monitor.Prelude.{Option, [], false, none, some, ℤ, ◌++◌, ◌∷◌}
use openwrt_grafana_monitor.Text.{Text, codes}
use openwrt_grafana_monitor.Dashboard.Styles.Mappings.{availability_mappings}
use openwrt_grafana_monitor.Dashboard.Panels.Values.{stat}
use openwrt_grafana_monitor.Dashboard.Panels.Base.{Panel}
use openwrt_grafana_monitor.Dashboard.Styles.{prom_filter}

abbrev pub device_filter : Text
device_filter = prom_filter ++ codes ", device=~\"$device\""

-- The expression of a profile's health tile.
unfoldable pub profile_expr : Text → Text → Text
profile_expr metric_name [] =
    codes "max(" ++ (metric_name ++ (codes "{" ++ (prom_filter ++ codes "}) or vector(0)")))
profile_expr metric_name (c ∷ cs) =
    let collector = c ∷ cs in
    codes "(max("
    ++ (metric_name
        ++ (codes "{"
            ++ (prom_filter
                ++ (codes "}) * max(node_scrape_collector_success{"
                    ++ (prom_filter
                        ++ (codes ", collector=\""
                            ++ (collector ++ codes "\"})) or vector(0)")))))))

unfoldable pub availability : ℤ → Text → Text → Text → Text → Option Panel
unfolding profile_expr
availability pid title metric_name description collector =
    stat pid title (profile_expr metric_name collector) (codes "none") description []
      (codes "unavailable") (some availability_mappings) false none (codes "value")
      (codes "Unavailable")
