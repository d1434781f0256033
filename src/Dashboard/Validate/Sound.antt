-- ===== src/Dashboard/Validate/Sound.antt =====
-- What is known of a dashboard that `validate_dashboard` accepts.
use openwrt_grafana_monitor.Prelude.{All, List, Option, [], some, true, ℤ, ◌↔◌, ◌∷◌, ◌≡◌, ◌≢◌}
use openwrt_grafana_monitor.Text.{Text, codes, elem}
use openwrt_grafana_monitor.Dashboard.Validate.Whole.{entries_of, keys}
use openwrt_grafana_monitor.Dashboard.Walk.{grid_items_by_tab, layout_refs}
use openwrt_grafana_monitor.Dashboard.Json.{Dict, Json, get, int_of, ◌>>=◌}
use openwrt_grafana_monitor.Dashboard.Validate.{Rect, at, no_repeat, place_items, texts_of}
use openwrt_grafana_monitor.Dashboard.Validate.Grid.{Apart, Fits}
use openwrt_grafana_monitor.Dashboard.Panels.Base.{panel_key}

-- No number stands twice.
abbrev pub Distinct : List ℤ → Type 0
Distinct [] = Unit
Distinct (n ∷ ns) = All (λ m. n ≢ m) ns × Distinct ns

abbrev pub id_keys : List ℤ → List Text
id_keys [] = []
id_keys (n ∷ ns) = panel_key n ∷ id_keys ns

-- The id that an element carries.
abbrev pub id_of : Json → Option ℤ
id_of element = get (codes "spec") element >>= λ spec. get (codes "id") spec >>= int_of

-- The ids that the elements carry, in order.
abbrev pub AreIds : Dict → List ℤ → Type 0
AreIds [] [] = Unit
AreIds [] (n ∷ ns) = ⊥
AreIds (entry ∷ d) [] = ⊥
AreIds ((key, element) ∷ d) (n ∷ ns) = (id_of element ≡ some n) × AreIds d ns

-- The items of a tab lie on the grid, and no two share a cell.
abbrev pub WellPlaced : Text × List Json → Type 0
WellPlaced (title, items) =
    (rects : List Rect) × (place_items [] items ≡ some rects) × Apart rects × All Fits rects

-- What the checks on the parts of a dashboard come to.
pub record IsSound (layout : Json) (elements : Dict) (pids : List ℤ) (refs : List Text)
    (by_tab : List (Text × List Json)) : Type 0 where
  pub read : texts_of (layout_refs layout) ≡ some refs
  pub tabs : grid_items_by_tab layout ≡ some by_tab
  pub owned : AreIds elements pids
  pub keyed : keys elements ≡ id_keys pids
  pub distinct : Distinct pids
  pub same : (k : Text) → (elem k refs ≡ true) ↔ (elem k (keys elements) ≡ true)
  pub once : no_repeat refs ≡ true
  pub placed : All WellPlaced by_tab

-- The parts of a dashboard that are sound together.
pub record IsValid (dash : Json) : Type 0 where
  pub layout : Json
  pub elements : Dict
  pub pids : List ℤ
  pub refs : List Text
  pub by_tab : List (Text × List Json)
  pub has_layout : at (codes "spec" ∷ codes "layout" ∷ []) dash ≡ some layout
  pub has_elements : (at (codes "spec" ∷ codes "elements" ∷ []) dash >>= entries_of) ≡ some elements
  pub sound : IsSound layout elements pids refs by_tab

-- What is returned when no assertion fails.
abbrev accepted : Option (Unit {0})
accepted = some tt
