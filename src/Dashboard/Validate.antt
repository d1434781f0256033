-- ===== src/Dashboard/Validate.antt =====
-- The checks of the layout in `validate_dashboard` of
-- scripts/build_openwrt_operations_dashboard.py.
pub mod Grid
pub mod Refs
pub mod Elements
pub mod Variables
pub mod Whole
pub mod Panels
pub mod Sound
use openwrt_grafana_monitor.Prelude.{
  Bool, List, Option, [], all, any, false, if◌then◌else◌, leb, ltb, none, not, pos, some, true, ℕ,
  ℤ, ◌&&◌, ◌++◌, ◌+◌, ◌∷◌,
}
use openwrt_grafana_monitor.Text.{Text, codes, elem}
use openwrt_grafana_monitor.Dashboard.Walk.{at}
use openwrt_grafana_monitor.Dashboard.Json.{Json, get, int_of, text_of, ◌>>=◌}

-- `rect`, with x, y, x + width, y + height
pub record Rect : Type 0 where
  pub left : ℕ
  pub top : ℕ
  pub right : ℕ
  pub bottom : ℕ

-- The assertions on one item: its place on the grid of 24 columns. `none` is the
-- `AssertionError`.
unfoldable pub rect_of : ℤ → ℤ → ℤ → ℤ → Option Rect
rect_of (pos x) (pos y) (pos width) (pos height) =
    if leb x 23 && (leb 1 width && leb width 24) && ltb 0 height && leb (x + width) 24
    then some (record { left = x; top = y; right = x + width; bottom = y + height })
    else none
rect_of _ _ _ _ = none

-- `rect[0] < other[2] and other[0] < rect[2] and rect[1] < other[3] and other[1] < rect[3]`
unfoldable pub overlaps : Rect → Rect → Bool
overlaps r o = ltb r.left o.right && ltb o.left r.right && ltb r.top o.bottom && ltb o.top r.bottom

-- The loop over the items of a tab, given the rectangles so far.
abbrev place_next : Rect → List Rect → Option (List Rect)
place_next r rects = if any (overlaps r) rects then none else some (rects ++ r ∷ [])

abbrev pub int_at : Text → Json → Option ℤ
int_at k v = get k v >>= int_of

-- The rectangle of an item; the `KeyError`s are `none` too.
unfoldable pub item_rect : Json → Option Rect
unfolding get rect_of at
item_rect item = do
  spec ← get (codes "spec") item
  x ← int_at (codes "x") spec
  y ← int_at (codes "y") spec
  width ← int_at (codes "width") spec
  height ← int_at (codes "height") spec
  name ← at (codes "element" ∷ codes "name" ∷ []) spec
  rect_of x y width height

unfoldable pub place_items : List Rect → List Json → Option (List Rect)
unfolding item_rect overlaps any
place_items rects [] = some rects
place_items rects (item ∷ items) =
    item_rect item >>= λ r. place_next r rects >>= λ more. place_items more items

abbrev pub is_placed : Option (List Rect) → Bool
is_placed none = false
is_placed (some rects) = true

-- The loop over the tabs.
unfoldable pub tabs_placed : List (Text × List Json) → Bool
unfolding place_items
tabs_placed [] = true
tabs_placed ((title, items) ∷ tabs) = is_placed (place_items [] items) && tabs_placed tabs

abbrev pub texts_of : List Json → Option (List Text)
texts_of [] = some []
texts_of (v ∷ vs) = text_of v >>= λ t. texts_of vs >>= λ ts. some (t ∷ ts)

abbrev pub no_repeat : List Text → Bool
no_repeat [] = true
no_repeat (t ∷ ts) = not (elem t ts) && no_repeat ts

-- `set(refs) == set(elements)`, and no reference twice
unfoldable pub refs_match : List Text → List Text → Bool
unfolding all elem
refs_match refs keys = all (λ r. elem r keys) refs && all (λ k. elem k refs) keys && no_repeat refs
