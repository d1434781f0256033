-- ===== src/Dashboard/Assemble.antt =====
-- How `build_dashboard` of the generators puts a dashboard together: panels are made and added to a
-- tab, one after the other, and tab by tab.
pub mod Refs
pub mod Total
use openwrt_grafana_monitor.Prelude.{List, Option, [], pos, some, ℕ, ◌++◌, ◌∷◌}
use openwrt_grafana_monitor.Text.{Text}
use openwrt_grafana_monitor.Dashboard.Builder.{Builder, Place, add, tab_of}
use openwrt_grafana_monitor.Dashboard.Json.{Json, ◌>>=◌}
use openwrt_grafana_monitor.Dashboard.Panels.Base.{Panel}

abbrev pub Placement : Type 0
Placement = Option Panel × Place

-- An item with the `x`, `y`, `width` and `height` that `add` is called with.
abbrev pub on_grid : Option Panel → ℕ → ℕ → ℕ → ℕ → Placement
on_grid item x y width height =
    (item, record { x = pos x; y = pos y; width = pos width; height = pos height })

-- The calls of `add` for a tab; `none` is a key error of a builder, or an element key that is there.
unfoldable pub add_all : Builder → List Json → List Placement → Option (Builder × List Json)
unfolding add
add_all b open_tab [] = some (b, open_tab)
add_all b open_tab ((item, place) ∷ ps) = do
  element ← item
  (b', more) ← add b open_tab element place
  add_all b' more ps

-- The tabs, in the order of the calls of `tabs.append`.
unfoldable pub assemble :
    Builder → List Json → List (Text × List Placement) → Option (Builder × List Json)
unfolding add_all
assemble b tabs [] = some (b, tabs)
assemble b tabs ((title, ps) ∷ rest) = do
  (b', items) ← add_all b [] ps
  assemble b' (tabs ++ tab_of title items ∷ []) rest
