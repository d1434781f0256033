-- ===== src/Dashboard/Operations/Introduction.antt =====
-- Panels of the tab "Optional & Diagnostics" of `build_dashboard`, scripts/build_openwrt_operations_dashboard.py.
use openwrt_grafana_monitor.Prelude.{List, [], pos, some, ◌∷◌}
use openwrt_grafana_monitor.Text.{codes}
use openwrt_grafana_monitor.Dashboard.Builder.{text_panel}
use openwrt_grafana_monitor.Dashboard.Assemble.{Placement, on_grid}

unfoldable pub opt_introduction : List Placement
opt_introduction =
    on_grid
      (some (
        text_panel (pos 600) [] (
          codes
            "## Optional & Diagnostics\nOptional collectors live here. Missing metrics render as Not collected/Unavailable instead of green failures or large blank Overview panels.")))
      0 0 24 3
    ∷ []
