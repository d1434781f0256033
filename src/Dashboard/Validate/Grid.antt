-- ===== src/Dashboard/Validate/Grid.antt =====
-- Tabs that pass the checks hold panels that share no cell of the grid.
use openwrt_grafana_monitor.Prelude.{
  All, All-append, List, [], any, ap, arith, false, length, length-append, pos, some, subst, sym, ℕ,
  ℤ, ◌++◌, ◌+◌, ◌<◌, ◌∷◌, ◌≡◌, ◌≤◌,
}
use openwrt_grafana_monitor.Text.{codes}
use openwrt_grafana_monitor.Dashboard.Json.{Json, bind-some, get}
use openwrt_grafana_monitor.Dashboard.Validate.{
  Rect, at, int_at, item_rect, overlaps, place_items, place_next, rect_of,
}
use mathlib.Core.Option.{some-injective}
use openwrt_grafana_monitor.Dashboard.Walk.{at}

-- The cell in column `c` and row `d` belongs to the rectangle.
pub record Covers (r : Rect) (c d : ℕ) : Type 0 where
  pub from_left : r.left ≤ c
  pub to_right : c < r.right
  pub from_top : r.top ≤ d
  pub to_bottom : d < r.bottom

abbrev pub Disjoint : Rect → Rect → Type 0
Disjoint r o = (c d : ℕ) → Covers r c d → Covers o c d → ⊥

-- No two rectangles of the list share a cell.
abbrev pub Apart : List Rect → Type 0
Apart [] = Unit
Apart (r ∷ rs) = All (Disjoint r) rs × Apart rs

-- A rectangle with cells, in the 24 columns.
pub record Fits (r : Rect) : Type 0 where
  pub wide : r.left < r.right
  pub high : r.top < r.bottom
  pub within : r.right ≤ 24

not_overlapping : (r o : Rect) → overlaps r o ≡ false → Disjoint o r
unfolding overlaps
not_overlapping r o h c d p q = ground arith

none_overlapping :
    (r : Rect) (rs : List Rect) → any (overlaps r) rs ≡ false → All (λ o. Disjoint o r) rs
unfolding any
none_overlapping r [] h = tt
none_overlapping r (o ∷ rs) h =
    (not_overlapping r o (ground arith), none_overlapping r rs (ground arith))

Apart-concat :
    (rs : List Rect) (r : Rect) → Apart rs → All (λ o. Disjoint o r) rs → Apart (rs ++ r ∷ [])
Apart-concat [] r h k = (tt, tt)
Apart-concat (o ∷ rs) r (a, h) (d, k) =
    (All-append (Disjoint o) rs (r ∷ []) a (d, tt), Apart-concat rs r h k)

rect_of-Fits : (x y width height : ℤ) (r : Rect) → rect_of x y width height ≡ some r → Fits r
unfolding rect_of
rect_of-Fits (pos x) (pos y) (pos width) (pos height) r h = ground arith
rect_of-Fits _ _ _ _ r h = cc

item_rect-Fits : (item : Json) (r : Rect) → item_rect item ≡ some r → Fits r
unfolding item_rect
item_rect-Fits item r h =
    let (spec, _, h1) = bind-some (get (codes "spec") item) _ r h in
    let (x, _, h2) = bind-some (int_at (codes "x") spec) _ r h1 in
    let (y, _, h3) = bind-some (int_at (codes "y") spec) _ r h2 in
    let (width, _, h4) = bind-some (int_at (codes "width") spec) _ r h3 in
    let (height, _, h5) = bind-some (int_at (codes "height") spec) _ r h4 in
    let (name, _, h6) = bind-some (at (codes "element" ∷ codes "name" ∷ []) spec) _ r h5 in
    rect_of-Fits x y width height r h6

place_next-some :
    (r : Rect) (rs more : List Rect)
    → place_next r rs ≡ some more
    → (any (overlaps r) rs ≡ false) × (more ≡ rs ++ r ∷ [])
place_next-some r rs more h = ground arith

-- Where the loop over the items of a tab ends, started with rectangles that lie in the grid and
-- share no cell, there is a rectangle more for each item; each lies in the grid and has cells, and
-- no two share a cell.
pub place_items-Apart :
    (items : List Json) (rs out : List Rect)
    → Apart rs
    → All Fits rs
    → place_items rs items ≡ some out
    → Apart out × All Fits out × (length out ≡ length rs + length items)
unfolding place_items
place_items-Apart [] rs out a f h =
    subst (λ o. Apart o × All Fits o × (length o ≡ length rs + 0)) (some-injective rs out h)
      (a, f, omega arith)
place_items-Apart (item ∷ items) rs out a f h =
    let (r, got, h1) = bind-some _ _ out h in
    let (more, put, h2) = bind-some _ _ out h1 in
    let (clear, grown) = place_next-some r rs more put in
    let apart = subst Apart (sym grown) (Apart-concat rs r a (none_overlapping r rs clear)) in
    let fits =
      subst (All Fits) (sym grown)
        (All-append Fits rs (r ∷ []) f (item_rect-Fits item r got, tt)) in
    let (a', f', n) = place_items-Apart items more out apart fits h2 in
    (a', f', omega (arith, n, ap length grown, length-append rs (r ∷ [])))
