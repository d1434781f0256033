-- ===== src/Dashboard/Panels/Values.antt =====
-- Builders of scripts/build_openwrt_operations_dashboard.py: `stat`, `loki_stat`, `bargauge`, `gauge`.
use openwrt_grafana_monitor.Prelude.{
  Bool, List, Option, [], false, if◌then◌else◌, some, true, ℤ, ◌++◌, ◌∷◌,
}
use openwrt_grafana_monitor.Text.{Text, codes}
use openwrt_grafana_monitor.Dashboard.Json.{
  Dict, Json, bool, dict, list, lit, number, or_nil, str, ◌>>=◌, ◌⇒◌,
}
use openwrt_grafana_monitor.Dashboard.Panels.Base.{Panel, given, panel}
use openwrt_grafana_monitor.Dashboard.Queries.{loki_query, prom_query}
use openwrt_grafana_monitor.Dashboard.Styles.{threshold_for}

unfoldable pub stat :
    ℤ
    → Text
    → Text
    → Text
    → Text
    → Text
    → Text
    → Option (List Json)
    → Bool
    → Option Json
    → Text
    → Text
    → Option Panel
stat pid title expr unit desc legend thresholds_key mappings graph decimals color_mode no_value = do
  style ← threshold_for thresholds_key
  let defaults : Dict =
      "thresholds" ⇒ style
      ∷ "mappings" ⇒ (list (or_nil mappings))
      ∷ "color" ⇒ (dict ("mode" ⇒ (lit "thresholds") ∷ []))
      ∷ "noValue" ⇒ (str no_value)
      ∷ []
  let defaults : Dict = defaults ++ given "decimals" decimals
  some (
      panel pid title (codes "stat")
        (prom_query expr legend (codes "A") (codes "time_series") false ∷ []) unit desc
        ("colorMode" ⇒ (str color_mode)
          ∷ "graphMode" ⇒ (str (if graph then codes "area" else codes "none"))
          ∷ "justifyMode" ⇒ (lit "center")
          ∷ "orientation" ⇒ (lit "auto")
          ∷ "reduceOptions" ⇒ (
              dict (
                "calcs" ⇒ (list ((lit "lastNotNull") ∷ []))
                ∷ "fields" ⇒ (lit "")
                ∷ "values" ⇒ (bool false)
                ∷ []))
          ∷ "textMode" ⇒ (lit "auto")
          ∷ "wideLayout" ⇒ (bool true)
          ∷ [])
        defaults [] [] [])

unfoldable pub loki_stat : ℤ → Text → Text → Text → Text → Option (List Json) → Option Panel
loki_stat pid title expr desc thresholds_key mappings = do
  style ← threshold_for thresholds_key
  some (
      panel pid title (codes "stat") (loki_query expr (codes "A") (codes "range") ∷ [])
        (codes "none") desc
        ("colorMode" ⇒ (lit "background_solid")
          ∷ "graphMode" ⇒ (lit "none")
          ∷ "justifyMode" ⇒ (lit "center")
          ∷ "orientation" ⇒ (lit "auto")
          ∷ "reduceOptions" ⇒ (
              dict (
                "calcs" ⇒ (list ((lit "lastNotNull") ∷ []))
                ∷ "fields" ⇒ (lit "")
                ∷ "values" ⇒ (bool false)
                ∷ []))
          ∷ "textMode" ⇒ (lit "auto")
          ∷ "wideLayout" ⇒ (bool true)
          ∷ [])
        ("thresholds" ⇒ style ∷ "mappings" ⇒ (list (or_nil mappings)) ∷ "noValue" ⇒ (lit "0") ∷ [])
        [] [] [])

unfoldable pub bargauge :
    ℤ
    → Text
    → List Json
    → Text
    → Text
    → Text
    → Option (List Json)
    → Option Json
    → Text
    → Option (List Json)
    → Option (List Json)
    → Bool
    → Option Panel
bargauge pid title queries unit desc thresholds_key mappings max_value color_mode transformations
      overrides values =
    do
      style ← threshold_for thresholds_key
      let defaults : Dict =
          "color" ⇒ (dict ("mode" ⇒ (str color_mode) ∷ []))
          ∷ "mappings" ⇒ (list (or_nil mappings))
          ∷ "thresholds" ⇒ style
          ∷ "min" ⇒ (number 0)
          ∷ []
      let defaults : Dict = defaults ++ given "max" max_value
      some (
          panel pid title (codes "bargauge") queries unit desc
            ("displayMode" ⇒ (lit "gradient")
              ∷ "orientation" ⇒ (lit "horizontal")
              ∷ "namePlacement" ⇒ (lit "auto")
              ∷ "valueMode" ⇒ (lit "color")
              ∷ "showUnfilled" ⇒ (bool true)
              ∷ "sizing" ⇒ (lit "auto")
              ∷ "minVizHeight" ⇒ (number 16)
              ∷ "maxVizHeight" ⇒ (number 300)
              ∷ "minVizWidth" ⇒ (number 8)
              ∷ "reduceOptions" ⇒ (
                  dict (
                    "calcs" ⇒ (list ((lit "lastNotNull") ∷ []))
                    ∷ "fields" ⇒ (lit "")
                    ∷ "values" ⇒ (bool values)
                    ∷ []))
              ∷ "legend" ⇒ (
                  dict (
                    "calcs" ⇒ (list [])
                    ∷ "displayMode" ⇒ (lit "list")
                    ∷ "placement" ⇒ (lit "bottom")
                    ∷ "showLegend" ⇒ (bool false)
                    ∷ []))
              ∷ [])
            defaults (or_nil overrides) (or_nil transformations) [])

unfoldable pub gauge : ℤ → Text → Text → Text → Text → Option Panel
gauge pid title expr desc thresholds_key = do
  style ← threshold_for thresholds_key
  some (
      panel pid title (codes "gauge")
        (prom_query expr [] (codes "A") (codes "time_series") false ∷ []) (codes "percentunit") desc
        ("minVizHeight" ⇒ (number 75)
          ∷ "minVizWidth" ⇒ (number 75)
          ∷ "orientation" ⇒ (lit "auto")
          ∷ "reduceOptions" ⇒ (
              dict (
                "calcs" ⇒ (list ((lit "lastNotNull") ∷ []))
                ∷ "fields" ⇒ (lit "")
                ∷ "values" ⇒ (bool false)
                ∷ []))
          ∷ "showThresholdLabels" ⇒ (bool false)
          ∷ "showThresholdMarkers" ⇒ (bool true)
          ∷ "sizing" ⇒ (lit "auto")
          ∷ [])
        ("min" ⇒ (number 0) ∷ "max" ⇒ (number 1) ∷ "thresholds" ⇒ style ∷ []) [] [] [])
