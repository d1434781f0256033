-- ===== src/Dashboard/Validate/Refs.antt =====
-- A layout that is assembled with the builder refers to each of its elements, once: the check of the
-- references passes.
use openwrt_grafana_monitor.Prelude.{
  Bool, List, Option, [], all, ap, append-nil, append_assoc, arith, false, if◌then◌else◌, none,
  refl, some, subst, sym, true, ◌++◌, ◌||◌, ◌∙◌, ◌∷◌, ◌≡◌,
}
use openwrt_grafana_monitor.Text.{Text, codes, elem, lookup, text_eq, text_eq-sym, text_eq_refl}
use openwrt_grafana_monitor.Dashboard.Builder.{
  Builder, Place, add, empty_builder, grid_item, has_key, tab_of, tabs_layout,
}
use openwrt_grafana_monitor.Dashboard.Json.{Json, items, str}
use openwrt_grafana_monitor.Dashboard.Walk.{layout_refs, refs_items}
use openwrt_grafana_monitor.Dashboard.Validate.{no_repeat, refs_match, texts_of}
use openwrt_grafana_monitor.Dashboard.Panels.Base.{Panel}

abbrev pub keys_of : List (Text × Json) → List Text
keys_of [] = []
keys_of ((k, v) ∷ d) = k ∷ keys_of d

abbrev strs : List Text → List Json
strs [] = []
strs (t ∷ ts) = str t ∷ strs ts

-- The tabs that are finished, by title and items.
abbrev pub Tabs : Type 0
Tabs = List (Text × List Json)

abbrev pub finished_tabs : Tabs → List Json
finished_tabs [] = []
finished_tabs ((title, items) ∷ tabs) = tab_of title items ∷ finished_tabs tabs

-- The builder, the finished tabs and the open tab that the calls of `add` and `tab` lead to.
pub data Assembled : Builder → Tabs → List Json → Type 0 where
  start : Assembled empty_builder [] []
  placed :
      {b b' : Builder} {tabs : Tabs} {open_tab open_tab' : List Json} (item : Panel) (place : Place)
      → Assembled b tabs open_tab
      → add b open_tab item place ≡ some (b', open_tab')
      → Assembled b' tabs open_tab'
  closed :
      {b : Builder} {tabs : Tabs} {open_tab : List Json} (title : Text)
      → Assembled b tabs open_tab
      → Assembled b (tabs ++ (title, open_tab) ∷ []) []

item_refs : (key : Text) (place : Place) → layout_refs (grid_item key place) ≡ str key ∷ []
unfolding layout_refs codes
item_refs key place = refl

refs_items-append :
    (vs ws : List Json)
    → refs_items (items (vs ++ ws)) ≡ refs_items (items vs) ++ refs_items (items ws)
unfolding layout_refs
refs_items-append [] ws = refl
refs_items-append (v ∷ vs) ws =
    ap (λ t. layout_refs v ++ t) (refs_items-append vs ws)
    ∙ sym (append_assoc (layout_refs v) (refs_items (items vs)) (refs_items (items ws)))

tab_refs : (title : Text) (vs : List Json) → layout_refs (tab_of title vs) ≡ refs_items (items vs)
unfolding layout_refs codes tab_of
tab_refs title vs = simp append-nil refl

layout_refs-tabs : (tabs : List Json) → layout_refs (tabs_layout tabs) ≡ refs_items (items tabs)
unfolding layout_refs codes
layout_refs-tabs tabs = simp append-nil refl

pub keys_of-append : (d e : List (Text × Json)) → keys_of (d ++ e) ≡ keys_of d ++ keys_of e
keys_of-append [] e = refl
keys_of-append ((k, v) ∷ d) e = ap (λ t. k ∷ t) (keys_of-append d e)

strs-append : (ts us : List Text) → strs (ts ++ us) ≡ strs ts ++ strs us
strs-append [] us = refl
strs-append (t ∷ ts) us = ap (λ w. str t ∷ w) (strs-append ts us)

texts_of-strs : (ts : List Text) → texts_of (strs ts) ≡ some ts
texts_of-strs [] = refl
texts_of-strs (t ∷ ts) = rw (texts_of-strs ts) refl

not-key :
    (k : Text) (d : List (Text × Json)) → has_key (lookup k d) ≡ false → elem k (keys_of d) ≡ false
unfolding lookup elem
not-key k [] h = refl
not-key k ((j, v) ∷ d) h = ground (arith, not-key k d, text_eq-sym k j)

elem-snoc :
    (t : Text) (ts : List Text) (k : Text) → elem t (ts ++ k ∷ []) ≡ (elem t ts || text_eq t k)
unfolding elem
elem-snoc t [] k = ground arith
elem-snoc t (u ∷ ts) k = ground (arith, elem-snoc t ts k)

no_repeat-snoc :
    (ts : List Text) (k : Text)
    → elem k ts ≡ false
    → no_repeat ts ≡ true
    → no_repeat (ts ++ k ∷ []) ≡ true
unfolding elem
no_repeat-snoc [] k e h = ground arith
no_repeat-snoc (t ∷ ts) k e h =
    ground (arith, no_repeat-snoc ts k, elem-snoc t ts k, text_eq-sym t k)

pub finished_tabs-append :
    (tabs more : Tabs) → finished_tabs (tabs ++ more) ≡ finished_tabs tabs ++ finished_tabs more
finished_tabs-append [] more = refl
finished_tabs-append ((title, vs) ∷ tabs) more =
    ap (λ t. tab_of title vs ∷ t) (finished_tabs-append tabs more)

-- The references so far, in the order of the layout.
abbrev refs_so_far : Tabs → List Json → List Json
refs_so_far tabs open_tab = refs_items (items (finished_tabs tabs)) ++ refs_items (items open_tab)

-- The references are the keys of the elements, in order, and no key stands twice.
record Refers (b : Builder) (tabs : Tabs) (open_tab : List Json) : Type 0 where
  same : refs_so_far tabs open_tab ≡ strs (keys_of b.elements)
  once : no_repeat (keys_of b.elements) ≡ true

one_ref :
    (key : Text) (place : Place) → refs_items (items (grid_item key place ∷ [])) ≡ str key ∷ []
unfolding layout_refs codes
one_ref key place = refl

one_tab :
    (title : Text) (vs : List Json)
    → refs_items (items (tab_of title vs ∷ [])) ≡ refs_items (items vs)
unfolding layout_refs
one_tab title vs = append-nil _ ∙ tab_refs title vs

refs_so_far-add :
    (tabs : Tabs) (open_tab : List Json) (key : Text) (place : Place)
    → refs_so_far tabs (open_tab ++ grid_item key place ∷ [])
      ≡ refs_so_far tabs open_tab ++ str key ∷ []
refs_so_far-add tabs open_tab key place =
    let done = refs_items (items (finished_tabs tabs)) in
    let there = refs_items (items open_tab) in
    ap (λ w. done ++ w) (refs_items-append open_tab (grid_item key place ∷ []))
    ∙ ap (λ w. done ++ (there ++ w)) (one_ref key place)
    ∙ sym (append_assoc done there (str key ∷ []))

refs_so_far-close :
    (tabs : Tabs) (title : Text) (open_tab : List Json)
    → refs_so_far (tabs ++ (title, open_tab) ∷ []) [] ≡ refs_so_far tabs open_tab
unfolding layout_refs
refs_so_far-close tabs title open_tab =
    ap (λ w. refs_items (items w) ++ []) (finished_tabs-append tabs ((title, open_tab) ∷ []))
    ∙ append-nil _
    ∙ refs_items-append (finished_tabs tabs) (tab_of title open_tab ∷ [])
    ∙ ap (λ w. refs_items (items (finished_tabs tabs)) ++ w) (one_tab title open_tab)

abbrev answered : Bool → Builder → List Json → Option (Builder × List Json)
answered known b open_tab = if known then none else some (b, open_tab)

-- What `add` gives back, and when.
added :
    (known : Bool) (x y : Builder) (u v : List Json)
    → answered known x u ≡ some (y, v)
    → (known ≡ false) × (x ≡ y) × (u ≡ v)
added true x y u v h = cc
added false x y u v h = (refl, ap (λ o. builder_of o x) h, ap (λ o. tab_of_pair o u) h)
  where
    builder_of : Option (Builder × List Json) → Builder → Builder
    builder_of none x = x
    builder_of (some o) x = o.0

    tab_of_pair : Option (Builder × List Json) → List Json → List Json
    tab_of_pair none u = u
    tab_of_pair (some o) u = o.1

add-Refers :
    (b b' : Builder) (tabs : Tabs) (open_tab open_tab' : List Json) (item : Panel) (place : Place)
    → add b open_tab item place ≡ some (b', open_tab')
    → Refers b tabs open_tab
    → Refers b' tabs open_tab'
unfolding add
add-Refers b b' tabs open_tab open_tab' (key, element) place h r =
    let (new, e, f) = added (has_key (lookup key b.elements)) _ b' _ open_tab' h in
    let more = keys_of-append b.elements ((key, element) ∷ []) in
    subst (λ c. Refers c tabs open_tab') e
      (subst (Refers _ tabs) f (record {
        same =
            refs_so_far-add tabs open_tab key place
            ∙ ap (λ w. w ++ str key ∷ []) r.same
            ∙ sym (strs-append (keys_of b.elements) (key ∷ []))
            ∙ ap strs (sym more);
        once =
            rw more (no_repeat-snoc (keys_of b.elements) key (not-key key b.elements new) r.once);
      }))

Assembled-Refers :
    {b : Builder} {tabs : Tabs} {open_tab : List Json}
    → Assembled b tabs open_tab
    → Refers b tabs open_tab
unfolding layout_refs
Assembled-Refers start = record { same = refl; once = refl }
Assembled-Refers (placed item place a h) = add-Refers _ _ _ _ _ item place h (Assembled-Refers a)
Assembled-Refers (closed title a) =
    let r = Assembled-Refers a in
    record { same = refs_so_far-close _ title _ ∙ r.same; once = r.once }

all-elem :
    (ts us : List Text)
    → ((t : Text) → elem t ts ≡ true → elem t us ≡ true)
    → all (λ t. elem t us) ts ≡ true
unfolding all elem
all-elem [] us h = refl
all-elem (t ∷ ts) us h =
    ground (arith, h t, text_eq_refl t, all-elem ts us (λ u e. h u (ground arith)))

-- Whatever is added to a builder and however it is divided into tabs, the finished layout refers to
-- the keys of the elements, in the order in which they were added, and `refs_match` accepts it.
pub Assembled-refs_match :
    {b : Builder} {tabs : Tabs}
    → Assembled b tabs []
    → (refs : List Text) × (texts_of (layout_refs (tabs_layout (finished_tabs tabs))) ≡ some refs)
      × (refs ≡ keys_of b.elements)
      × (refs_match refs (keys_of b.elements) ≡ true)
unfolding refs_match layout_refs
Assembled-refs_match {b} {tabs} a =
    let r = Assembled-Refers a in
    let keys = keys_of b.elements in
    (
      keys,
      ap texts_of (layout_refs-tabs (finished_tabs tabs) ∙ sym (append-nil _) ∙ r.same)
          ∙ texts_of-strs keys,
      refl,
      ground (arith, all-elem keys keys (λ t e. e), r.once),
    )
