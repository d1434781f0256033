-- ===== src/Dashboard/Queries.antt =====
-- The queries and transformations of scripts/build_openwrt_operations_dashboard.py.
use openwrt_grafana_monitor.Prelude.{
  Bool, List, Option, [], false, if◌then◌else◌, keep, some, true, ℕ, ℤ, ◌++◌, ◌+◌, ◌∷◌,
}
use openwrt_grafana_monitor.Text.{Text, codes, text_eq}
use openwrt_grafana_monitor.Dashboard.Json.{
  Dict, Json, bool, dict, int, list, lit, number, or_nil, put, str, ◌⇒◌,
}
use openwrt_grafana_monitor.Dashboard.Styles.{loki_ds, prom_ds}

abbrev prom_spec : Text → Text → Text → Bool → Dict
prom_spec expr legend fmt instant =
    "expr" ⇒ str expr
      ∷ "legendFormat" ⇒ str legend
      ∷ (if text_eq fmt (codes "time_series") then [] else "format" ⇒ str fmt ∷ [])
    ++ (if instant then "instant" ⇒ bool true ∷ [] else [])

unfoldable pub prom_query : Text → Text → Text → Text → Bool → Json
unfolding text_eq
prom_query expr legend ref fmt instant = dict (
    "kind" ⇒ lit "PanelQuery"
    ∷ "spec"
      ⇒ dict (
          "refId" ⇒ str ref
          ∷ "hidden" ⇒ bool false
          ∷ "query"
            ⇒ dict (
                "kind" ⇒ lit "DataQuery"
                ∷ "group" ⇒ lit "prometheus"
                ∷ "version" ⇒ lit "v0"
                ∷ "datasource" ⇒ dict ("name" ⇒ str prom_ds ∷ [])
                ∷ "spec" ⇒ dict (prom_spec expr legend fmt instant)
                ∷ [])
          ∷ [])
    ∷ [])

unfoldable pub loki_query : Text → Text → Text → Json
loki_query expr ref query_type = dict (
    "kind" ⇒ lit "PanelQuery"
    ∷ "spec"
      ⇒ dict (
          "refId" ⇒ str ref
          ∷ "hidden" ⇒ bool false
          ∷ "query"
            ⇒ dict (
                "kind" ⇒ lit "DataQuery"
                ∷ "group" ⇒ lit "loki"
                ∷ "version" ⇒ lit "v0"
                ∷ "datasource" ⇒ dict ("name" ⇒ str loki_ds ∷ [])
                ∷ "spec" ⇒ dict ("expr" ⇒ str expr ∷ "queryType" ⇒ str query_type ∷ [])
                ∷ [])
          ∷ [])
    ∷ [])

unfoldable pub tf : Text → Option Dict → Json
tf kind options = dict (
    "kind" ⇒ str kind
    ∷ "spec" ⇒ dict ("id" ⇒ str kind ∷ "options" ⇒ dict (or_nil options) ∷ [])
    ∷ [])

-- `{name: True for name in names}`: a name that comes again keeps its place.
unfoldable pub marks : Dict → List Text → Dict
unfolding put
marks d [] = d
marks d (name ∷ names) = marks (put name (bool true) d) names

unfoldable pub organize : Option (List Text) → Option Dict → Option Dict → Json
unfolding tf marks
organize exclude rename index = tf (codes "organize") (
    some (
      "excludeByName" ⇒ dict (marks [] (or_nil exclude))
      ∷ "renameByName" ⇒ dict (or_nil rename)
      ∷ "indexByName" ⇒ dict (or_nil index)
      ∷ []))

unfoldable pub sort_by : Text → Bool → Json
unfolding tf
sort_by name desc =
    tf (codes "sortBy")
      (some ("fields" ⇒ list (dict ("displayName" ⇒ str name ∷ "desc" ⇒ bool desc ∷ []) ∷ []) ∷ []))

unfoldable pub limit : ℤ → Json
unfolding tf
limit n = tf (codes "limit") (some ("limitField" ⇒ int n ∷ []))

unfoldable pub convert_time : Text → Json
unfolding tf
convert_time name = tf (codes "convertFieldType") (
    some (
      "conversions"
        ⇒ list (dict ("fieldName" ⇒ str name ∷ "destinationType" ⇒ lit "time" ∷ []) ∷ [])
      ∷ []))

unfoldable pub calculate : Text → Text → Text → Text → Bool → Json
unfolding tf
calculate alias left right operator replacing = tf (codes "calculateField") (
    some (
      "mode" ⇒ lit "binary"
      ∷ "alias" ⇒ str alias
      ∷ "binary" ⇒ dict ("left" ⇒ str left ∷ "right" ⇒ str right ∷ "operator" ⇒ str operator ∷ [])
      ∷ "replace" ⇒ bool replacing
      ∷ []))

unfoldable pub data_group : List Json → List Json → Json
data_group queries transformations = dict (
    "kind" ⇒ lit "QueryGroup"
    ∷ "spec"
      ⇒ dict (
          "queries" ⇒ list queries
          ∷ "transformations" ⇒ list transformations
          ∷ "queryOptions" ⇒ dict []
          ∷ [])
    ∷ [])

abbrev pub noise : List Text
noise =
    codes "Time"
    ∷ codes "__name__"
    ∷ codes "Value"
    ∷ codes "cluster"
    ∷ codes "job"
    ∷ codes "router"
    ∷ codes "endpoint"
    ∷ codes "instance"
    ∷ codes "namespace"
    ∷ codes "prometheus"
    ∷ codes "prometheus_replica"
    ∷ codes "service"
    ∷ []

-- `{name: i for i, name in enumerate(keep)}`: a name that comes again takes the later index.
unfoldable pub numbered : Dict → ℕ → List Text → Dict
unfolding put
numbered d i [] = d
numbered d i (name ∷ names) = numbered (put name (number i) d) (i + 1) names

unfoldable pub clean_table_transforms : Dict → List Text → List Json
unfolding organize numbered
clean_table_transforms rename keep =
    organize (some noise) (some rename) (some (numbered [] 0 keep)) ∷ []
