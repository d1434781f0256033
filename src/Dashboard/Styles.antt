-- ===== src/Dashboard/Styles.antt =====
-- The styles that the panels of scripts/build_openwrt_operations_dashboard.py share.
pub mod Mappings
use openwrt_grafana_monitor.Prelude.{List, Option, [], ◌∷◌}
use openwrt_grafana_monitor.Text.{Text, codes, lookup}
use openwrt_grafana_monitor.Dashboard.Json.{Json, decimal, dict, list, lit, null, number, str, ◌⇒◌}

abbrev pub prom_ds : Text
prom_ds = codes "${DS_PROMETHEUS}"

abbrev pub loki_ds : Text
loki_ds = codes "${DS_LOKI}"

abbrev pub prom_filter : Text
prom_filter = codes "job=\"openwrt\", router=~\"$router\""

abbrev pub loki_filter : Text
loki_filter = codes "job=\"openwrt-syslog\", router=~\"$router\""

abbrev pub green : Text
green = codes "#1A9E3A"

abbrev pub yellow : Text
yellow = codes "#E0B400"

abbrev pub red : Text
red = codes "#F2495C"

abbrev pub orange : Text
orange = codes "#FF9830"

abbrev pub blue : Text
blue = codes "#5794F2"

abbrev pub gray : Text
gray = codes "#808080"

abbrev pub purple : Text
purple = codes "#B877D9"

-- `thresholds(*steps)`
abbrev threshold_steps : List (Text × Json) → List Json
threshold_steps [] = []
threshold_steps ((color, value) ∷ steps) =
    dict ("color" ⇒ str color ∷ "value" ⇒ value ∷ []) ∷ threshold_steps steps

unfoldable pub thresholds : List (Text × Json) → Json
thresholds steps = dict ("mode" ⇒ lit "absolute" ∷ "steps" ⇒ list (threshold_steps steps) ∷ [])

unfoldable pub color_override : Text → Text → Json
color_override name color = dict (
    "matcher" ⇒ dict ("id" ⇒ lit "byName" ∷ "options" ⇒ str name ∷ [])
    ∷ "properties"
      ⇒ list (
          dict (
            "id" ⇒ lit "color"
            ∷ "value" ⇒ dict ("mode" ⇒ lit "fixed" ∷ "fixedColor" ⇒ str color ∷ [])
            ∷ [])
          ∷ [])
    ∷ [])

unfoldable pub regexp_color_override : Text → Text → Json
regexp_color_override pattern_text color = dict (
    "matcher" ⇒ dict ("id" ⇒ lit "byRegexp" ∷ "options" ⇒ str pattern_text ∷ [])
    ∷ "properties"
      ⇒ list (
          dict (
            "id" ⇒ lit "color"
            ∷ "value" ⇒ dict ("mode" ⇒ lit "fixed" ∷ "fixedColor" ⇒ str color ∷ [])
            ∷ [])
          ∷ [])
    ∷ [])

-- `THRESHOLDS`
abbrev pub threshold_table : List (Text × Json)
threshold_table =
    (codes "ok_bad", thresholds ((codes "green", number 0) ∷ (codes "red", number 1) ∷ []))
    ∷ (
      codes "capacity",
      thresholds (
          (codes "green", number 0)
          ∷ (codes "yellow", decimal 7 1)
          ∷ (codes "red", decimal 9 1)
          ∷ []),
    )
    ∷ (
      codes "capacity_soft",
      thresholds (
          (codes "green", number 0)
          ∷ (codes "yellow", decimal 6 1)
          ∷ (codes "red", decimal 85 2)
          ∷ []),
    )
    ∷ (
      codes "loss_percent",
      thresholds
          ((codes "green", number 0) ∷ (codes "yellow", number 1) ∷ (codes "red", number 5) ∷ []),
    )
    ∷ (
      codes "capacity_percent",
      thresholds
          ((codes "green", number 0) ∷ (codes "yellow", number 70) ∷ (codes "red", number 90) ∷ []),
    )
    ∷ (
      codes "latency_seconds",
      thresholds
          ((codes "green", number 0) ∷ (codes "yellow", number 1) ∷ (codes "red", number 5) ∷ []),
    )
    ∷ (
      codes "freshness",
      thresholds (
          (codes "green", number 0)
          ∷ (codes "yellow", number 660)
          ∷ (codes "red", number 900)
          ∷ []),
    )
    ∷ (codes "neutral", thresholds ((codes "blue", null) ∷ []))
    ∷ (codes "unavailable", thresholds ((codes "gray", number 0) ∷ (codes "blue", number 1) ∷ []))
    ∷ []

abbrev pub common_overrides : List Json
common_overrides =
    regexp_color_override (codes "/RX|Download|Received|Online|Healthy|Success|OK/i") green
    ∷ regexp_color_override (codes "/TX|Upload|Transmit/i") blue
    ∷ regexp_color_override (codes "/error|\\bdrop|fail|\\bdown\\b|offline|critical|problem/i") red
    ∷ regexp_color_override (codes "/warn|changed|loss/i") orange
    ∷ regexp_color_override (codes "/limit|maximum/i") yellow
    ∷ []

-- `THRESHOLDS[key]`; `none` is the `KeyError`
unfoldable pub threshold_for : Text → Option Json
unfolding lookup thresholds
threshold_for key = lookup key threshold_table

-- `THRESHOLDS["neutral"]`
abbrev pub neutral : Json
neutral = thresholds ((codes "blue", null) ∷ [])
