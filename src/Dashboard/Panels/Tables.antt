-- ===== src/Dashboard/Panels/Tables.antt =====
-- Builders of scripts/build_openwrt_operations_dashboard.py: `table`, `piechart`, `logs_panel`.
use openwrt_grafana_monitor.Prelude.{Bool, List, Option, [], false, true, ℤ, ◌∷◌}
use openwrt_grafana_monitor.Text.{Text, codes}
use openwrt_grafana_monitor.Dashboard.Json.{Json, bool, dict, list, lit, or_nil, str, ◌⇒◌}
use openwrt_grafana_monitor.Dashboard.Panels.Base.{Panel, panel, sort_list}
use openwrt_grafana_monitor.Dashboard.Styles.{neutral}
use openwrt_grafana_monitor.Dashboard.Queries.{loki_query}

unfoldable pub table :
    ℤ
    → Text
    → List Json
    → Text
    → Option (List Json)
    → Option (List Json)
    → Option Text
    → Bool
    → Panel
table pid title queries desc transformations overrides sort_col sort_desc =
    panel pid title (codes "table") queries (codes "none") desc
      ("cellHeight" ⇒ (lit "sm")
        ∷ "showHeader" ⇒ (bool true)
        ∷ "footer" ⇒ (
            dict (
              "show" ⇒ (bool false)
              ∷ "reducer" ⇒ (list ((lit "sum") ∷ []))
              ∷ "fields" ⇒ (lit "")
              ∷ []))
        ∷ "sortBy" ⇒ (sort_list sort_col sort_desc)
        ∷ [])
      ("custom" ⇒ (
          dict (
            "align" ⇒ (lit "auto")
            ∷ "cellOptions" ⇒ (dict ("type" ⇒ (lit "auto") ∷ []))
            ∷ "filterable" ⇒ (bool true)
            ∷ "inspect" ⇒ (bool false)
            ∷ []))
        ∷ "thresholds" ⇒ neutral
        ∷ [])
      (or_nil overrides) (or_nil transformations) []

unfoldable pub piechart :
    ℤ
    → Text
    → List Json
    → Text
    → Text
    → Text
    → Option (List Json)
    → Option (List Json)
    → Bool
    → Panel
piechart pid title queries unit desc pie_type transformations overrides values =
    panel pid title (codes "piechart") queries unit desc
      ("pieType" ⇒ (str pie_type)
        ∷ "displayLabels" ⇒ (list ((lit "percent") ∷ []))
        ∷ "legend" ⇒ (
            dict (
              "displayMode" ⇒ (lit "table")
              ∷ "placement" ⇒ (lit "right")
              ∷ "showLegend" ⇒ (bool true)
              ∷ "values" ⇒ (list ((lit "value") ∷ (lit "percent") ∷ []))
              ∷ []))
        ∷ "reduceOptions" ⇒ (
            dict (
              "calcs" ⇒ (list ((lit "lastNotNull") ∷ []))
              ∷ "fields" ⇒ (lit "")
              ∷ "values" ⇒ (bool values)
              ∷ []))
        ∷ "tooltip" ⇒ (
            dict ("mode" ⇒ (lit "single") ∷ "sort" ⇒ (lit "desc") ∷ "hideZeros" ⇒ (bool true) ∷ []))
        ∷ [])
      ("color" ⇒ (dict ("mode" ⇒ (lit "palette-classic") ∷ [])) ∷ []) (or_nil overrides)
      (or_nil transformations) []

unfoldable pub logs_panel : ℤ → Text → Text → Text → Panel
logs_panel pid title expr desc =
    panel pid title (codes "logs") (loki_query expr (codes "A") (codes "range") ∷ []) (codes "none")
      desc
      ("dedupStrategy" ⇒ (lit "none")
        ∷ "enableLogDetails" ⇒ (bool true)
        ∷ "prettifyLogMessage" ⇒ (bool false)
        ∷ "showCommonLabels" ⇒ (bool false)
        ∷ "showLabels" ⇒ (bool false)
        ∷ "showTime" ⇒ (bool true)
        ∷ "sortOrder" ⇒ (lit "Descending")
        ∷ "wrapLogMessage" ⇒ (bool true)
        ∷ [])
      ("thresholds" ⇒ neutral ∷ []) [] [] []
