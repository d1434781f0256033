-- ===== src/Dashboard/Validate/Whole.antt =====
-- `validate_dashboard` as a whole.
use openwrt_grafana_monitor.Prelude.{
  Bool, List, Option, [], any, false, negsuc, none, not, pos, some, true, ℤ, ◌&&◌, ◌==◌, ◌∷◌,
}
use openwrt_grafana_monitor.Text.{Text, codes, contains, text_eq}
use openwrt_grafana_monitor.Dashboard.Json.{
  Json, elements_of, entries, get, obj, str, text_of, ◌>>=◌,
}
use openwrt_grafana_monitor.Dashboard.Builder.{has_key}
use openwrt_grafana_monitor.Dashboard.Styles.{loki_ds, prom_ds}
use openwrt_grafana_monitor.Dashboard.Dumps.{dumps, sort_keys}
use openwrt_grafana_monitor.Dashboard.Walk.{at, grid_items_by_tab, iter_strings, layout_refs}
use openwrt_grafana_monitor.Dashboard.Validate.{refs_match, tabs_placed, texts_of}
use openwrt_grafana_monitor.Dashboard.Validate.Elements.{assert_then, panel_ids}
use openwrt_grafana_monitor.Dashboard.Validate.Variables.{defined_vars, variables_ok, vars_of}

abbrev pub expected_tabs : List Text
expected_tabs =
    codes "Overview"
    ∷ codes "WAN & Internet"
    ∷ codes "WiFi & Clients"
    ∷ codes "LAN, NAT & Devices"
    ∷ codes "Client Insights"
    ∷ codes "DNS & DHCP"
    ∷ codes "Router Health"
    ∷ codes "Logs & Security"
    ∷ codes "Optional & Diagnostics"
    ∷ []

abbrev equals_text : Option Json → Text → Bool
equals_text (some (str s)) t = text_eq s t
equals_text v t = false

abbrev pub entries_of : Json → Option (List (Text × Json))
entries_of (obj fs) = some (entries fs)
entries_of v = none

abbrev pub keys : List (Text × Json) → List Text
keys [] = []
keys ((k, v) ∷ d) = k ∷ keys d

unfoldable pub texts_eq : List Text → List Text → Bool
unfolding text_eq
texts_eq [] [] = true
texts_eq (s ∷ ss) (t ∷ ts) = text_eq s t && texts_eq ss ts
texts_eq ss ts = false

unfoldable pub tab_titles : List Json → Option (List Text)
unfolding at
tab_titles [] = some []
tab_titles (t ∷ ts) = do
  title ← at (codes "spec" ∷ codes "title" ∷ []) t >>= text_of
  titles ← tab_titles ts
  some (title ∷ titles)

abbrev pub same_int : ℤ → ℤ → Bool
same_int (pos m) (pos n) = m == n
same_int (negsuc m) (negsuc n) = m == n
same_int m n = false

-- `len(panel_ids) == len(set(panel_ids))`
unfoldable pub ids_distinct : List ℤ → Bool
unfolding any
ids_distinct [] = true
ids_distinct (n ∷ ns) = not (any (same_int n) ns) && ids_distinct ns

-- The checks on what the dashboard is called, in the order of the source.
unfoldable pub header_ok : Json → Bool
unfolding at text_eq
header_ok dash =
    equals_text (at (codes "apiVersion" ∷ []) dash) (codes "dashboard.grafana.app/v2beta1")
    && (equals_text (at (codes "kind" ∷ []) dash) (codes "Dashboard")
        && (equals_text (at (codes "metadata" ∷ codes "name" ∷ []) dash)
              (codes "openwrt-operations")
            && (equals_text (at (codes "spec" ∷ codes "title" ∷ []) dash)
                  (codes "OpenWrt — Operations")
                && equals_text (at (codes "spec" ∷ codes "layout" ∷ codes "kind" ∷ []) dash)
                    (codes "TabsLayout"))))

-- The checks on the serialized text.
unfoldable pub text_ok : Json → Json → Bool
unfolding contains dumps sort_keys get
text_ok dash metadata =
    let text = dumps (sort_keys dash) in
    not (contains (codes "schemaVersion") text)
    && (not (contains (codes "pluginVersion") text)
        && (not (has_key (get (codes "uid") metadata))
            && (contains prom_ds text && contains loki_ds text)))

-- `none` is an `AssertionError` or a missing key.
unfoldable pub validate_dashboard : Json → Option (Unit {0})
unfolding header_ok at texts_eq tab_titles ids_distinct text_ok
validate_dashboard dash = do
  layout ← at (codes "spec" ∷ codes "layout" ∷ []) dash
  tabs ← at (codes "spec" ∷ codes "tabs" ∷ []) layout >>= elements_of
  titles ← tab_titles tabs
  elements ← at (codes "spec" ∷ codes "elements" ∷ []) dash >>= entries_of
  refs ← texts_of (layout_refs layout)
  pids ← panel_ids elements
  by_tab ← grid_items_by_tab layout
  variables ← at (codes "spec" ∷ codes "variables" ∷ []) dash >>= elements_of
  defined ← defined_vars variables
  spec ← get (codes "spec") dash
  metadata ← get (codes "metadata") dash
  assert_then
      (header_ok dash
        && (texts_eq titles expected_tabs
            && (refs_match refs (keys elements)
                && (ids_distinct pids
                    && (tabs_placed by_tab
                        && (variables_ok defined (vars_of (iter_strings spec))
                            && text_ok dash metadata))))))
      (some tt)
