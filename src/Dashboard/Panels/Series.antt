-- ===== src/Dashboard/Panels/Series.antt =====
-- Builders of scripts/build_openwrt_operations_dashboard.py: `timeseries`, `state_timeline`, `heatmap`.
use openwrt_grafana_monitor.Prelude.{
  Bool, List, Option, [], false, if◌then◌else◌, some, true, ℤ, ◌++◌, ◌∷◌,
}
use openwrt_grafana_monitor.Text.{Text, codes}
use openwrt_grafana_monitor.Dashboard.Styles.{blue, common_overrides, neutral, threshold_for}
use openwrt_grafana_monitor.Dashboard.Panels.Base.{Panel, is_given, or_json, or_texts, panel}
use openwrt_grafana_monitor.Dashboard.Json.{
  Dict, Json, bool, decimal, dict, int, list, lit, number, or_nil, str, ◌>>=◌, ◌⇒◌,
}

unfoldable pub timeseries :
    ℤ
    → Text
    → List Json
    → Text
    → Text
    → Bool
    → ℤ
    → Text
    → Option (List Json)
    → Option Json
    → Option (List Text)
    → Text
    → Option (List Json)
    → Panel
timeseries pid title queries unit desc stacked fill line_interpolation overrides thresholds_value
      legend_calcs stack_mode transformations =
    let defaults : Dict =
      "color" ⇒ (dict ("mode" ⇒ (lit "palette-classic-by-name") ∷ []))
      ∷ "custom" ⇒ (
          dict (
            "drawStyle" ⇒ (lit "line")
            ∷ "lineInterpolation" ⇒ (str line_interpolation)
            ∷ "lineWidth" ⇒ (number 2)
            ∷ "fillOpacity" ⇒ (int fill)
            ∷ "gradientMode" ⇒ (lit "opacity")
            ∷ "showPoints" ⇒ (lit "never")
            ∷ "spanNulls" ⇒ (bool false)
            ∷ "axisSoftMin" ⇒ (number 0)
            ∷ "stacking" ⇒ (
                dict (
                  "group" ⇒ (lit "A")
                  ∷ "mode" ⇒ (str (if stacked then stack_mode else codes "none"))
                  ∷ []))
            ∷ "thresholdsStyle" ⇒ (
                dict (
                  "mode"
                    ⇒ (str (if is_given thresholds_value then codes "dashed+area" else codes "off"))
                  ∷ []))
            ∷ "scaleDistribution" ⇒ (dict ("type" ⇒ (lit "linear") ∷ []))
            ∷ "hideFrom" ⇒ (
                dict
                  ("legend" ⇒ (bool false) ∷ "tooltip" ⇒ (bool false) ∷ "viz" ⇒ (bool false) ∷ []))
            ∷ []))
      ∷ "thresholds" ⇒ (or_json thresholds_value neutral)
      ∷ [] in
    panel pid title (codes "timeseries") queries unit desc
      ("legend" ⇒ (
          dict (
            "calcs" ⇒ (list (or_texts legend_calcs (codes "lastNotNull" ∷ codes "max" ∷ [])))
            ∷ "displayMode" ⇒ (lit "table")
            ∷ "placement" ⇒ (lit "bottom")
            ∷ "showLegend" ⇒ (bool true)
            ∷ []))
        ∷ "tooltip" ⇒ (
            dict ("hideZeros" ⇒ (bool false) ∷ "mode" ⇒ (lit "multi") ∷ "sort" ⇒ (lit "desc") ∷ []))
        ∷ [])
      defaults (or_nil overrides ++ common_overrides) (or_nil transformations) []

unfoldable pub state_timeline :
    ℤ
    → Text
    → List Json
    → Text
    → Text
    → Option (List Json)
    → Option (List Json)
    → Option (List Json)
    → Text
    → Text
    → Text
    → Json
    → Option Panel
state_timeline pid title queries unit desc mappings overrides transformations color_mode
      thresholds_key show_value row_height =
    do
      style ← threshold_for thresholds_key
      some (
          panel pid title (codes "state-timeline") queries unit desc
            ("alignValue" ⇒ (lit "left")
              ∷ "mergeValues" ⇒ (bool true)
              ∷ "rowHeight" ⇒ row_height
              ∷ "showValue" ⇒ (str show_value)
              ∷ "perPage" ⇒ (number 20)
              ∷ "legend" ⇒ (
                  dict (
                    "displayMode" ⇒ (lit "list")
                    ∷ "placement" ⇒ (lit "bottom")
                    ∷ "showLegend" ⇒ (bool true)
                    ∷ []))
              ∷ "tooltip" ⇒ (
                  dict (
                    "hideZeros" ⇒ (bool false)
                    ∷ "mode" ⇒ (lit "single")
                    ∷ "sort" ⇒ (lit "none")
                    ∷ []))
              ∷ [])
            ("color" ⇒ (dict ("mode" ⇒ (str color_mode) ∷ []))
              ∷ "custom" ⇒ (
                  dict (
                    "fillOpacity" ⇒ (number 70)
                    ∷ "lineWidth" ⇒ (number 0)
                    ∷ "spanNulls" ⇒ (bool false)
                    ∷ "hideFrom" ⇒ (
                        dict (
                          "legend" ⇒ (bool false)
                          ∷ "tooltip" ⇒ (bool false)
                          ∷ "viz" ⇒ (bool false)
                          ∷ []))
                    ∷ []))
              ∷ "mappings" ⇒ (list (or_nil mappings))
              ∷ "thresholds" ⇒ style
              ∷ [])
            (or_nil overrides) (or_nil transformations) [])

unfoldable pub heatmap :
    ℤ → Text → List Json → Text → Text → Text → Bool → Text → Option (List Json) → Bool → Panel
heatmap pid title queries unit desc scheme calculate y_axis_unit transformations legend =
    panel pid title (codes "heatmap") queries unit desc
      ("calculate" ⇒ (bool calculate)
        ∷ "cellGap" ⇒ (number 1)
        ∷ "cellValues" ⇒ (dict ("unit" ⇒ (str unit) ∷ []))
        ∷ "color" ⇒ (
            dict (
              "mode" ⇒ (lit "scheme")
              ∷ "scheme" ⇒ (str scheme)
              ∷ "fill" ⇒ (str blue)
              ∷ "exponent" ⇒ (decimal 5 1)
              ∷ "steps" ⇒ (number 64)
              ∷ "reverse" ⇒ (bool false)
              ∷ []))
        ∷ "exemplars" ⇒ (dict ("color" ⇒ (lit "rgba(255,0,255,0.7)") ∷ []))
        ∷ "filterValues" ⇒ (dict ("le" ⇒ (decimal 1 9) ∷ []))
        ∷ "legend" ⇒ (dict ("show" ⇒ (bool legend) ∷ []))
        ∷ "rowsFrame" ⇒ (dict ("layout" ⇒ (lit "auto") ∷ []))
        ∷ "showValue" ⇒ (lit "never")
        ∷ "tooltip" ⇒ (
            dict (
              "mode" ⇒ (lit "single")
              ∷ "showColorScale" ⇒ (bool false)
              ∷ "yHistogram" ⇒ (bool false)
              ∷ []))
        ∷ "yAxis" ⇒ (
            dict (
              "axisPlacement" ⇒ (lit "left")
              ∷ "reverse" ⇒ (bool false)
              ∷ "unit" ⇒ (str y_axis_unit)
              ∷ []))
        ∷ [])
      ("custom" ⇒ (
          dict (
            "hideFrom" ⇒ (
              dict ("legend" ⇒ (bool false) ∷ "tooltip" ⇒ (bool false) ∷ "viz" ⇒ (bool false) ∷ []))
            ∷ "scaleDistribution" ⇒ (dict ("type" ⇒ (lit "linear") ∷ []))
            ∷ []))
        ∷ [])
      [] (or_nil transformations) []
