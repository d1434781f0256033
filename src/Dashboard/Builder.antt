-- ===== src/Dashboard/Builder.antt =====
-- `DashboardBuilder`, the variables and the text panel of
-- scripts/build_openwrt_operations_dashboard.py.
use openwrt_grafana_monitor.Prelude.{
  Bool, List, Option, [], false, if◌then◌else◌, none, some, true, ℤ, ◌&&◌, ◌++◌, ◌∷◌,
}
use openwrt_grafana_monitor.Text.{Text, codes, lookup, text_eq}
use openwrt_grafana_monitor.Dashboard.Styles.{prom_ds}
use openwrt_grafana_monitor.Dashboard.Json.{Json, bool, dict, int, list, lit, str, ◌⇒◌}
use openwrt_grafana_monitor.Dashboard.Queries.{data_group}
use openwrt_grafana_monitor.Dashboard.Panels.Base.{Panel, panel_key}

unfoldable pub text_panel : ℤ → Text → Text → Panel
unfolding panel_key data_group
text_panel pid title content = (
  panel_key pid,
  dict (
      "kind" ⇒ lit "Panel"
      ∷ "spec"
        ⇒ dict (
            "id" ⇒ int pid
            ∷ "title" ⇒ str title
            ∷ "description" ⇒ str []
            ∷ "links" ⇒ list []
            ∷ "data" ⇒ data_group [] []
            ∷ "vizConfig"
              ⇒ dict (
                  "kind" ⇒ lit "VizConfig"
                  ∷ "group" ⇒ lit "text"
                  ∷ "version" ⇒ str []
                  ∷ "spec"
                    ⇒ dict (
                        "options"
                          ⇒ dict (
                              "mode" ⇒ lit "markdown"
                              ∷ "content" ⇒ str content
                              ∷ "code"
                                ⇒ dict (
                                    "language" ⇒ lit "plaintext"
                                    ∷ "showLineNumbers" ⇒ bool false
                                    ∷ "showMiniMap" ⇒ bool false
                                    ∷ [])
                              ∷ [])
                        ∷ "fieldConfig" ⇒ dict ("defaults" ⇒ dict [] ∷ "overrides" ⇒ list [] ∷ [])
                        ∷ [])
                  ∷ [])
            ∷ [])
      ∷ []),
)

-- `self.elements`
pub record Builder : Type 0 where
  pub elements : List (Text × Json)

abbrev pub empty_builder : Builder
empty_builder = record { elements = [] }

-- Where an element stands on the grid of its tab.
pub record Place : Type 0 where
  pub x : ℤ
  pub y : ℤ
  pub width : ℤ
  pub height : ℤ

abbrev pub grid_item : Text → Place → Json
grid_item key p = dict (
    "kind" ⇒ lit "GridLayoutItem"
    ∷ "spec"
      ⇒ dict (
          "x" ⇒ int p.x
          ∷ "y" ⇒ int p.y
          ∷ "width" ⇒ int p.width
          ∷ "height" ⇒ int p.height
          ∷ "element" ⇒ dict ("kind" ⇒ lit "ElementReference" ∷ "name" ⇒ str key ∷ [])
          ∷ [])
    ∷ [])

abbrev pub has_key : Option Json → Bool
has_key none = false
has_key (some v) = true

-- `add`: the builder and the tab after it; `none` is the `AssertionError` at a key that is there.
unfoldable pub add : Builder → List Json → Panel → Place → Option (Builder × List Json)
unfolding lookup
add b tab (key, element) p =
    if has_key (lookup key b.elements)
    then none
    else some (record { elements = b.elements ++ (key, element) ∷ [] }, tab ++ grid_item key p ∷ [])

-- `tab`
unfoldable pub tab_of : Text → List Json → Json
tab_of title items = dict (
    "kind" ⇒ lit "TabsLayoutTab"
    ∷ "spec"
      ⇒ dict (
          "title" ⇒ str title
          ∷ "layout"
            ⇒ dict (
                "kind" ⇒ lit "RowsLayout"
                ∷ "spec"
                  ⇒ dict (
                      "rows"
                        ⇒ list (
                            dict (
                              "kind" ⇒ lit "RowsLayoutRow"
                              ∷ "spec"
                                ⇒ dict (
                                    "title" ⇒ str title
                                    ∷ "collapse" ⇒ bool false
                                    ∷ "hideHeader" ⇒ bool true
                                    ∷ "layout"
                                      ⇒ dict (
                                          "kind" ⇒ lit "GridLayout"
                                          ∷ "spec" ⇒ dict ("items" ⇒ list items ∷ [])
                                          ∷ [])
                                    ∷ [])
                              ∷ [])
                            ∷ [])
                      ∷ [])
                ∷ [])
          ∷ [])
    ∷ [])

-- The layout of a dashboard: `{"kind": "TabsLayout", "spec": {"tabs": tabs}}`.
abbrev pub tabs_layout : List Json → Json
tabs_layout tabs = dict ("kind" ⇒ lit "TabsLayout" ∷ "spec" ⇒ dict ("tabs" ⇒ list tabs ∷ []) ∷ [])

unfoldable pub datasource_var : Text → Text → Text → Text → Json
datasource_var name label plugin_id current = dict (
    "kind" ⇒ lit "DatasourceVariable"
    ∷ "spec"
      ⇒ dict (
          "name" ⇒ str name
          ∷ "label" ⇒ str label
          ∷ "pluginId" ⇒ str plugin_id
          ∷ "refresh" ⇒ lit "onDashboardLoad"
          ∷ "regex" ⇒ str []
          ∷ "current" ⇒ dict ("text" ⇒ str current ∷ "value" ⇒ str current ∷ [])
          ∷ "options" ⇒ list []
          ∷ "multi" ⇒ bool false
          ∷ "includeAll" ⇒ bool false
          ∷ "hide" ⇒ lit "dontHide"
          ∷ "skipUrlSync" ⇒ bool false
          ∷ "allowCustomValue" ⇒ bool true
          ∷ [])
    ∷ [])

unfoldable pub query_var : Text → Text → Text → Text → Bool → Bool → Text → Json
unfolding text_eq
query_var name label query current include_all multi all_value = dict (
    "kind" ⇒ lit "QueryVariable"
    ∷ "spec"
      ⇒ dict (
          "name" ⇒ str name
          ∷ "label" ⇒ str label
          ∷ "current" ⇒ (
              if include_all && text_eq current (codes "All")
              then dict ("text" ⇒ list (lit "All" ∷ []) ∷ "value" ⇒ list (lit "$__all" ∷ []) ∷ [])
              else dict ("text" ⇒ str current ∷ "value" ⇒ str current ∷ []))
          ∷ "hide" ⇒ lit "dontHide"
          ∷ "refresh" ⇒ lit "onDashboardLoad"
          ∷ "skipUrlSync" ⇒ bool false
          ∷ "query"
            ⇒ dict (
                "kind" ⇒ lit "DataQuery"
                ∷ "group" ⇒ lit "prometheus"
                ∷ "version" ⇒ lit "v0"
                ∷ "datasource" ⇒ dict ("name" ⇒ str prom_ds ∷ [])
                ∷ "spec" ⇒ dict ("query" ⇒ str query ∷ "refId" ⇒ lit "Q" ∷ [])
                ∷ [])
          ∷ "regex" ⇒ str []
          ∷ "sort" ⇒ lit "naturalAsc"
          ∷ "definition" ⇒ str query
          ∷ "options" ⇒ list []
          ∷ "multi" ⇒ bool multi
          ∷ "includeAll" ⇒ bool include_all
          ∷ "allValue" ⇒ str (if include_all then all_value else [])
          ∷ "allowCustomValue" ⇒ bool true
          ∷ [])
    ∷ [])
