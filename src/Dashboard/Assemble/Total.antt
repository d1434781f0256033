-- ===== src/Dashboard/Assemble/Total.antt =====
-- No assertion fails while a dashboard is put together from elements with keys of their own.
use openwrt_grafana_monitor.Prelude.{
  List, Option, [], ap, append-nil, append_assoc, arith, false, none, pos, refl, some, sym, true, ℕ,
  ◌++◌, ◌||◌, ◌∙◌, ◌∷◌, ◌≡◌,
}
use openwrt_grafana_monitor.Text.{Text, elem, lookup, text_eq, text_eq-sym}
use openwrt_grafana_monitor.Dashboard.Panels.Base.{Panel, panel_key}
use openwrt_grafana_monitor.Dashboard.Assemble.{
  Builder, Panel, Place, Placement, add_all, assemble, tab_of,
}
use openwrt_grafana_monitor.Dashboard.Builder.{
  Builder, Place, add, empty_builder, grid_item, has_key, tab_of,
}
use openwrt_grafana_monitor.Dashboard.Validate.Refs.{keys_of, keys_of-append}
use mathlib.Core.Option.{some-injective}
use openwrt_grafana_monitor.Dashboard.Json.{Json, bind-some, ◌>>=◌}
use openwrt_grafana_monitor.Dashboard.Validate.{no_repeat}

-- The keys of the elements of a tab, and of all tabs, where every builder finds its thresholds.
unfoldable pub placed_keys : List Placement → Option (List Text)
placed_keys [] = some []
placed_keys ((item, place) ∷ ps) =
    item >>= λ element. placed_keys ps >>= λ ks. some (element.0 ∷ ks)

unfoldable pub keys_in : List (Text × List Placement) → Option (List Text)
unfolding placed_keys
keys_in [] = some []
keys_in ((title, ps) ∷ contents) =
    placed_keys ps >>= λ ks. keys_in contents >>= λ more. some (ks ++ more)

elem-append :
    (t k : Text) (ts us : List Text)
    → elem t (ts ++ k ∷ us) ≡ (elem t ts || (text_eq t k || elem t us))
unfolding elem
elem-append t k [] us = refl
elem-append t k (u ∷ ts) us = ground (arith, elem-append t k ts us)

no_repeat-apart :
    (xs : List Text) (k : Text) (ks : List Text)
    → no_repeat (xs ++ k ∷ ks) ≡ true
    → elem k xs ≡ false
unfolding elem
no_repeat-apart [] k ks h = refl
no_repeat-apart (x ∷ xs) k ks h =
    let there = elem-append x k xs ks in
    let same = text_eq-sym k x in ground (arith, no_repeat-apart xs k ks, there, same)

absent :
    (k : Text) (d : List (Text × Json)) → elem k (keys_of d) ≡ false → has_key (lookup k d) ≡ false
unfolding elem lookup
absent k [] h = refl
absent k ((j, v) ∷ d) h = let same = text_eq-sym j k in ground (arith, absent k d, same)

-- A new key is added.
add-new :
    (b : Builder) (open_tab : List Json) (element : Panel) (place : Place)
    → elem element.0 (keys_of b.elements) ≡ false
    → add b open_tab element place
      ≡ some (
        record { elements = b.elements ++ element ∷ [] },
        open_tab ++ grid_item element.0 place ∷ [],
      )
unfolding add
add-new b open_tab (key, element) place h = rw (absent key b.elements h) refl

add_all-some :
    (ps : List Placement) (b : Builder) (open_tab : List Json) (ks : List Text)
    → placed_keys ps ≡ some ks
    → no_repeat (keys_of b.elements ++ ks) ≡ true
    → (r : Builder × List Json) × (add_all b open_tab ps ≡ some r)
      × (keys_of r.0.elements ≡ keys_of b.elements ++ ks)
unfolding add_all placed_keys
add_all-some [] b open_tab ks h n = (
  (b, open_tab),
  refl,
  sym (append-nil _) ∙ ap (λ k. keys_of b.elements ++ k) (some-injective _ _ h),
)
add_all-some ((none, place) ∷ ps) b open_tab ks h n = cc
add_all-some ((some element, place) ∷ ps) b open_tab ks h n =
    let (more, e, f) = bind-some (placed_keys ps) _ ks h in
    let parts = ap (λ k. keys_of b.elements ++ k) (sym (some-injective _ _ f)) in
    let added = keys_of-append b.elements (element ∷ []) in
    let along = append_assoc (keys_of b.elements) (element.0 ∷ []) more in
    let new = no_repeat-apart (keys_of b.elements) element.0 more (ap no_repeat (sym parts) ∙ n) in
    let step = add-new b open_tab element place new in
    let joined = ap (λ k. k ++ more) added ∙ along in
    let (r, g, w) =
      add_all-some ps (record { elements = b.elements ++ element ∷ [] })
        (open_tab ++ grid_item element.0 place ∷ []) more e
        (ap no_repeat (joined ∙ sym parts) ∙ n) in
    (r, rw step g, w ∙ joined ∙ sym parts)

no_repeat-front : (xs ys : List Text) → no_repeat (xs ++ ys) ≡ true → no_repeat xs ≡ true
unfolding elem
no_repeat-front [] ys h = refl
no_repeat-front (x ∷ xs) [] h = sym (ap no_repeat (append-nil (x ∷ xs))) ∙ h
no_repeat-front (x ∷ xs) (y ∷ ys) h =
    ground (arith, no_repeat-front xs (y ∷ ys), elem-append x y xs ys)

assemble-some :
    (contents : List (Text × List Placement)) (b : Builder) (tabs : List Json) (ks : List Text)
    → keys_in contents ≡ some ks
    → no_repeat (keys_of b.elements ++ ks) ≡ true
    → (r : Builder × List Json) × (assemble b tabs contents ≡ some r)
      × (keys_of r.0.elements ≡ keys_of b.elements ++ ks)
unfolding assemble keys_in
assemble-some [] b tabs ks h n =
    ((b, tabs), refl, sym (append-nil _) ∙ ap (λ k. keys_of b.elements ++ k) (some-injective _ _ h))
assemble-some ((title, ps) ∷ contents) b tabs ks h n =
    let (first, e, f) = bind-some (placed_keys ps) _ ks h in
    let (more, e', f') = bind-some (keys_in contents) _ ks f in
    let parts = ap (λ k. keys_of b.elements ++ k) (some-injective _ _ f') in
    let along = append_assoc (keys_of b.elements) first more in
    let whole = ap no_repeat (along ∙ parts) ∙ n in
    let ((c, items), g, w) =
      add_all-some ps b [] first e (no_repeat-front (keys_of b.elements ++ first) more whole) in
    let joined = ap (λ k. k ++ more) w ∙ along ∙ parts in
    let (r, g', w') =
      assemble-some contents c (tabs ++ tab_of title items ∷ []) more e'
        (ap no_repeat joined ∙ n) in
    (r, rw g g', w' ∙ joined)

-- Where each builder finds its thresholds and no two elements have the same key, no assertion of `add`
-- fails: the dashboard is put together, and its elements have those keys, in that order.
pub assemble-builds :
    (contents : List (Text × List Placement)) (ks : List Text)
    → keys_in contents ≡ some ks
    → no_repeat ks ≡ true
    → (r : Builder × List Json) × (assemble empty_builder [] contents ≡ some r)
      × (keys_of r.0.elements ≡ ks)
assemble-builds contents ks h n = assemble-some contents empty_builder [] ks h n

-- The keys of panels with these ids.
abbrev pub panel_keys : List ℕ → List Text
panel_keys [] = []
panel_keys (n ∷ ns) = panel_key (pos n) ∷ panel_keys ns
