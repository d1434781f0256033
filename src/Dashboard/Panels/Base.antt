-- ===== src/Dashboard/Panels/Base.antt =====
-- `panel` of scripts/build_openwrt_operations_dashboard.py, by which the other builders make their
-- elements.
use openwrt_grafana_monitor.Prelude.{
  Bool, List, Option, String, [], false, if◌then◌else◌, none, some, true, ℤ, ◌++◌, ◌∷◌,
}
use openwrt_grafana_monitor.Text.{Text, codes, elem, show_ℤ}
use openwrt_grafana_monitor.Dashboard.Json.{
  Dict, Json, bool, dict, end, int, list, lit, obj, str, update, ◌⇒◌,
}
use openwrt_grafana_monitor.Dashboard.Styles.{neutral}
use openwrt_grafana_monitor.Dashboard.Queries.{data_group}

-- A key of the dashboard's elements, and the element.
abbrev pub Panel : Type 0
Panel = Text × Json

-- `f"panel-{pid}"`
unfoldable pub panel_key : ℤ → Text
unfolding show_ℤ
panel_key pid = codes "panel-" ++ show_ℤ pid

-- The entry of a key that is set only where its value is not `None`.
abbrev pub given : String → Option Json → Dict
given k none = []
given k (some v) = k ⇒ v ∷ []

abbrev pub is_given : Option Json → Bool
is_given none = false
is_given (some (obj end)) = false
is_given (some v) = true

abbrev pub or_json : Option Json → Json → Json
or_json none v = v
or_json (some (obj end)) v = v
or_json (some w) v = w

abbrev texts : List Text → List Json
texts [] = []
texts (t ∷ ts) = str t ∷ texts ts

-- `xs or [..]` for a list of texts: an empty list gives way too.
abbrev pub or_texts : Option (List Text) → List Text → List Json
or_texts none ts = texts ts
or_texts (some []) ts = texts ts
or_texts (some (s ∷ ss)) ts = texts (s ∷ ss)

abbrev sort_entry : Text → Bool → List Json
sort_entry [] sort_desc = []
sort_entry (c ∷ s) sort_desc =
    dict ("desc" ⇒ bool sort_desc ∷ "displayName" ⇒ str (c ∷ s) ∷ []) ∷ []

-- `[{…}] if sort_col else []`
abbrev pub sort_list : Option Text → Bool → Json
sort_list none sort_desc = list []
sort_list (some s) sort_desc = list (sort_entry s sort_desc)

abbrev by_thresholds : List Text
by_thresholds = codes "stat" ∷ codes "gauge" ∷ codes "bargauge" ∷ []

abbrev pub base_defaults : Text → Text → Dict
base_defaults unit viz =
    "unit" ⇒ str unit
    ∷ "mappings" ⇒ list []
    ∷ "thresholds" ⇒ neutral
    ∷ "color"
      ⇒ dict (
          "mode"
            ⇒ (if elem viz by_thresholds then lit "thresholds" else lit "palette-classic-by-name")
          ∷ [])
    ∷ []

-- Arguments that default to `None` are given by their empty value.
unfoldable pub panel :
    ℤ
    → Text
    → Text
    → List Json
    → Text
    → Text
    → Dict
    → Dict
    → List Json
    → List Json
    → List Json
    → Panel
unfolding panel_key elem update data_group
panel pid title viz queries unit desc options field_defaults overrides transformations links = (
  panel_key pid,
  dict (
      "kind" ⇒ lit "Panel"
      ∷ "spec"
        ⇒ dict (
            "id" ⇒ int pid
            ∷ "title" ⇒ str title
            ∷ "description" ⇒ str desc
            ∷ "links" ⇒ list links
            ∷ "data" ⇒ data_group queries transformations
            ∷ "vizConfig"
              ⇒ dict (
                  "kind" ⇒ lit "VizConfig"
                  ∷ "group" ⇒ str viz
                  ∷ "version" ⇒ str []
                  ∷ "spec"
                    ⇒ dict (
                        "options" ⇒ dict options
                        ∷ "fieldConfig"
                          ⇒ dict (
                              "defaults" ⇒ dict (update (base_defaults unit viz) field_defaults)
                              ∷ "overrides" ⇒ list overrides
                              ∷ [])
                        ∷ [])
                  ∷ [])
            ∷ [])
      ∷ []),
)
