-- ===== src/Dashboard/Tests.antt =====
-- The checks of a layout at concrete inputs.
use openwrt_grafana_monitor.Prelude.{All, List, [], false, length, pos, refl, some, ◌+◌, ◌∷◌, ◌≡◌}
use openwrt_grafana_monitor.Text.{Text, codes, contains, lookup, text_eq}
use openwrt_grafana_monitor.Dashboard.Validate.{Rect, place_items, tabs_placed}
use openwrt_grafana_monitor.Dashboard.Validate.Elements.{check_element}
use openwrt_grafana_monitor.Dashboard.Builder.{Place, grid_item, tab_of, tabs_layout, text_panel}
use openwrt_grafana_monitor.Dashboard.Json.{Json, dict, list, lit, str, ◌⇒◌}
use openwrt_grafana_monitor.Dashboard.Styles.{thresholds}
use openwrt_grafana_monitor.Dashboard.Validate.Panels.{panel-check_element}
use openwrt_grafana_monitor.Dashboard.Panels.Base.{Panel, panel, panel_key}
use openwrt_grafana_monitor.Dashboard.Dumps.{dumps}
use openwrt_grafana_monitor.Dashboard.Validate.Grid.{Apart, Fits, place_items-Apart}

abbrev two_items : List Json
two_items =
    grid_item (codes "panel-1") (record { x = pos 0; y = pos 0; width = pos 12; height = pos 4 })
    ∷ grid_item (codes "panel-2") (record { x = pos 12; y = pos 0; width = pos 12; height = pos 4 })
    ∷ []

abbrev two_rects : List Rect
two_rects =
    record { left = 0; top = 0; right = 12; bottom = 4 }
    ∷ record { left = 12; top = 0; right = 24; bottom = 4 }
    ∷ []

place_items_example :
    Apart two_rects
    × All Fits two_rects
    × (length two_rects ≡ length {A = Rect} [] + length two_items)
unfolding place_items codes
place_items_example = place_items-Apart two_items [] two_rects tt tt refl

overlap_test :
    tabs_placed (
      (
        codes "a",
        grid_item (codes "p") (record { x = pos 0; y = pos 0; width = pos 13; height = pos 4 })
            ∷ two_items,
      )
      ∷ [])
    ≡ false
unfolding tabs_placed codes
overlap_test = refl

abbrev example_place : Place
example_place = record { x = pos 0; y = pos 0; width = pos 12; height = pos 4 }

abbrev example_panel : Panel
example_panel = panel (pos 1) (codes "Load") (codes "stat") [] (codes "none") [] [] [] [] [] []

panel_example : check_element (panel_key (pos 1)) example_panel.1 ≡ some (pos 1)
unfolding codes text_eq lookup contains dumps panel thresholds
panel_example =
    panel-check_element (pos 1) (codes "Load") (codes "stat") [] (codes "none") [] [] [] [] [] []
      refl refl refl refl

-- The smallest dashboard with a panel that the checks accept.
abbrev small_variable : Text → Json
small_variable name = dict ("spec" ⇒ dict ("name" ⇒ str name ∷ []) ∷ [])

abbrev small_panel : Panel
small_panel = text_panel (pos 1) [] (codes "${DS_PROMETHEUS} ${DS_LOKI}")

abbrev empty_tabs : List Text → List Json
empty_tabs [] = []
empty_tabs (title ∷ titles) = tab_of title [] ∷ empty_tabs titles

abbrev small_tabs : List Json
small_tabs =
    tab_of (codes "Overview") (grid_item (codes "panel-1") example_place ∷ [])
    ∷ empty_tabs (
        codes "WAN & Internet"
        ∷ codes "WiFi & Clients"
        ∷ codes "LAN, NAT & Devices"
        ∷ codes "Client Insights"
        ∷ codes "DNS & DHCP"
        ∷ codes "Router Health"
        ∷ codes "Logs & Security"
        ∷ codes "Optional & Diagnostics"
        ∷ [])

abbrev small_dashboard : Json
small_dashboard = dict (
    "apiVersion" ⇒ lit "dashboard.grafana.app/v2beta1"
    ∷ "kind" ⇒ lit "Dashboard"
    ∷ "metadata" ⇒ dict ("name" ⇒ lit "openwrt-operations" ∷ [])
    ∷ "spec"
      ⇒ dict (
          "title" ⇒ lit "OpenWrt — Operations"
          ∷ "variables"
            ⇒ list (small_variable (codes "DS_PROMETHEUS") ∷ small_variable (codes "DS_LOKI") ∷ [])
          ∷ "elements" ⇒ dict (small_panel ∷ [])
          ∷ "layout" ⇒ tabs_layout small_tabs
          ∷ [])
    ∷ [])
