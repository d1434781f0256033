-- ===== src/Dashboard/Assemble/Refs.antt =====
-- A dashboard that was put together refers to each of its elements.
use openwrt_grafana_monitor.Prelude.{
  List, [], all, ap, none, some, subst, sym, true, ◌++◌, ◌∙◌, ◌∷◌, ◌≡◌,
}
use openwrt_grafana_monitor.Text.{Text}
use openwrt_grafana_monitor.Dashboard.Json.{Json, bind-some}
use openwrt_grafana_monitor.Dashboard.Assemble.{Builder, Json, Placement, add, add_all, assemble}
use openwrt_grafana_monitor.Dashboard.Builder.{Builder, add, empty_builder, tabs_layout}
use openwrt_grafana_monitor.Dashboard.Validate.Refs.{
  Assembled, Assembled-refs_match, Tabs, closed, finished_tabs, finished_tabs-append, keys_of,
  placed, start,
}
use mathlib.Core.Option.{some-injective}
use openwrt_grafana_monitor.Dashboard.Validate.{refs_match, texts_of}
use openwrt_grafana_monitor.Dashboard.Walk.{layout_refs}

add_all-Assembled :
    (ps : List Placement) (b : Builder) (tabs : Tabs) (open_tab : List Json)
    (r : Builder × List Json)
    → Assembled b tabs open_tab
    → add_all b open_tab ps ≡ some r
    → Assembled r.0 tabs r.1
unfolding add_all
add_all-Assembled [] b tabs open_tab r a h =
    subst (λ q. Assembled q.0 tabs q.1) (some-injective _ _ h) a
add_all-Assembled ((none, place) ∷ ps) b tabs open_tab r a h = cc
add_all-Assembled ((some element, place) ∷ ps) b tabs open_tab r a h =
    let ((c, more), e, rest) = bind-some (add b open_tab element place) _ r h in
    add_all-Assembled ps c tabs more r (placed element place a e) rest

assemble-Assembled :
    (contents : List (Text × List Placement)) (b : Builder) (tabs : Tabs) (r : Builder × List Json)
    → Assembled b tabs []
    → assemble b (finished_tabs tabs) contents ≡ some r
    → (all : Tabs) × Assembled r.0 all [] × (finished_tabs all ≡ r.1)
unfolding assemble
assemble-Assembled [] b tabs r a h = (
  tabs,
  subst (λ q. Assembled q.0 tabs []) (some-injective _ _ h) a,
  ap (λ q. q.1) (some-injective _ _ h),
)
assemble-Assembled ((title, ps) ∷ contents) b tabs r a h =
    let ((c, items), e, rest) = bind-some (add_all b [] ps) _ r h in
    let one = finished_tabs-append tabs ((title, items) ∷ []) in
    assemble-Assembled contents c (tabs ++ (title, items) ∷ []) r
      (closed title (add_all-Assembled ps b tabs [] (c, items) a e))
      (ap (λ ts. assemble c ts contents) one ∙ rest)

-- Where a dashboard is put together, its layout refers to the keys of its elements, in the order in
-- which they were added, and `refs_match` accepts it: no element is left out, and none is there twice.
pub assemble-refs_match :
    (contents : List (Text × List Placement)) (b : Builder) (tabs : List Json)
    → assemble empty_builder [] contents ≡ some (b, tabs)
    → (refs : List Text) × (texts_of (layout_refs (tabs_layout tabs)) ≡ some refs)
      × (refs ≡ keys_of b.elements)
      × (refs_match refs (keys_of b.elements) ≡ true)
assemble-refs_match contents b tabs h =
    let (all, a, same) = assemble-Assembled contents empty_builder [] (b, tabs) start h in
    let (refs, e, f, g) = Assembled-refs_match a in
    (refs, ap (λ ts. texts_of (layout_refs (tabs_layout ts))) (sym same) ∙ e, f, g)
