-- ===== src/Dashboard/Walk.antt =====
-- The walks through a dashboard of scripts/build_openwrt_operations_dashboard.py:
-- `iter_strings`, `layout_refs` and `grid_items_by_tab`.
use openwrt_grafana_monitor.Prelude.{
  Bool, List, Option, [], false, if◌then◌else◌, none, some, ◌++◌, ◌∷◌,
}
use openwrt_grafana_monitor.Text.{Text, codes, lookup, text_eq}
use openwrt_grafana_monitor.Dashboard.Json.{
  Fields, Items, Json, arr, cons, elements_of, end, entries, field, get, nil, obj, str, text_of,
  ◌>>=◌,
}

unfoldable mutual
  pub iter_strings : Json → List Text
  iter_strings (str s) = s ∷ []
  iter_strings (arr vs) = iter_items vs
  iter_strings (obj fs) = iter_fields fs
  iter_strings v = []

  pub iter_items : Items → List Text
  iter_items nil = []
  iter_items (cons v vs) = iter_strings v ++ iter_items vs

  pub iter_fields : Fields → List Text
  iter_fields end = []
  iter_fields (field k v fs) = iter_strings v ++ iter_fields fs

abbrev is_text : Option Json → Text → Bool
is_text (some (str s)) t = text_eq s t
is_text _ t = false

abbrev one : Option Json → List Json
one none = []
one (some v) = v ∷ []

-- `[layout["name"]]` for an element reference with a name
unfoldable pub own_ref : Fields → List Json
unfolding lookup text_eq
own_ref fs =
    if is_text (lookup (codes "kind") (entries fs)) (codes "ElementReference")
    then one (lookup (codes "name") (entries fs))
    else []

unfoldable mutual
  unfolding own_ref

  pub layout_refs : Json → List Json
  layout_refs (obj fs) = own_ref fs ++ refs_fields fs
  layout_refs (arr vs) = refs_items vs
  layout_refs v = []

  pub refs_items : Items → List Json
  refs_items nil = []
  refs_items (cons v vs) = layout_refs v ++ refs_items vs

  pub refs_fields : Fields → List Json
  refs_fields end = []
  refs_fields (field k v fs) = layout_refs v ++ refs_fields fs

-- `value["a"]["b"]…`
unfoldable pub at : List Text → Json → Option Json
unfolding get
at [] v = some v
at (k ∷ ks) v = get k v >>= at ks

abbrev append_items : Option (List Json) → Option (List Json) → Option (List Json)
append_items none more = none
append_items (some xs) none = none
append_items (some xs) (some ys) = some (xs ++ ys)

unfoldable pub row_items : List Json → Option (List Json)
unfolding at
row_items [] = some []
row_items (row ∷ rows) =
    append_items
      (at (codes "spec" ∷ codes "layout" ∷ codes "spec" ∷ codes "items" ∷ []) row >>= elements_of)
      (row_items rows)

abbrev tab_items : Json → Option (Text × List Json)
tab_items tab = do
  title ← at (codes "spec" ∷ codes "title" ∷ []) tab >>= text_of
  rows ← at (codes "spec" ∷ codes "layout" ∷ codes "spec" ∷ codes "rows" ∷ []) tab >>= elements_of
  items ← row_items rows
  some (title, items)

-- `result[title] = items`
unfoldable pub set_tab : Text → List Json → List (Text × List Json) → List (Text × List Json)
unfolding text_eq
set_tab k v [] = (k, v) ∷ []
set_tab k v ((j, w) ∷ d) = if text_eq j k then (j, v) ∷ d else (j, w) ∷ set_tab k v d

unfoldable pub collect_tabs : List (Text × List Json) → List Json → Option (List (Text × List Json))
unfolding set_tab row_items
collect_tabs result [] = some result
collect_tabs result (tab ∷ tabs) =
    tab_items tab >>= λ found. collect_tabs (set_tab found.0 found.1 result) tabs

unfoldable pub grid_items_by_tab : Json → Option (List (Text × List Json))
unfolding collect_tabs at
grid_items_by_tab layout =
    at (codes "spec" ∷ codes "tabs" ∷ []) layout >>= elements_of >>= collect_tabs []
