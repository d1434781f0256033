-- ===== src/Oui/Records.antt =====
-- The index of a table that `build` of scripts/build_oui_table.py makes from the rows of a registry.
use openwrt_grafana_monitor.Prelude.{
  All, Bool, Bool-cases, List, Option, [], arith, false, if◌then◌else◌, inl, inr, length,
  length-append, map, none, refl, some, suc, true, ◌*◌, ◌++◌, ◌<◌, ◌∷◌, ◌≡◌, ◌≤◌, ◌⊎◌,
}
use openwrt_grafana_monitor.Text.{Text, elem, text_eq}
use openwrt_grafana_monitor.Oui.Displays.{OnlyOnce, displays}
use openwrt_grafana_monitor.Oui.Vendors.{Covered, collect-Covered, slot-≤, sorted_hits-All}
use openwrt_grafana_monitor.Oui.Build.{
  Build, Hit, RegistryRow, Table, assign, assign_hit, built, classify, collect, insert_item,
  load_rows, match_rows, max_vendors, prefix_len, record_len, records, slot, sorted_hits,
  sorted_items, stopped, text_lt, too_many_vendors,
}
use openwrt_grafana_monitor.Oui.Index.{base36-number36}

-- Sorting keeps what holds of every item, and the number of items.
module _ (P : Text × Hit → Type 0) where
  pub insert_item-All :
      (i : Text × Hit) (is : List (Text × Hit))
      → P i
      → All P is
      → All P (insert_item i is) × (length (insert_item i is) ≡ suc (length is))
  unfolding insert_item
  insert_item-All i [] h a = ((h, tt), refl)
  insert_item-All (k, v) ((j, w) ∷ is) h (e, a) =
      let (b, n) = insert_item-All (k, v) is h a in
      elim (Bool-cases (text_lt k j)) [
        | inl q ↦ rw q ((h, (e, a)), refl)
        | inr q ↦ rw q ((e, b), omega (arith, n))
      ]

  pub sorted_items-All :
      (is : List (Text × Hit))
      → All P is
      → All P (sorted_items is) × (length (sorted_items is) ≡ length is)
  unfolding sorted_items
  sorted_items-All [] a = (tt, refl)
  sorted_items-All (i ∷ is) (h, a) =
      let (b, n) = sorted_items-All is a in
      let (c, m) = insert_item-All i (sorted_items is) h b in (c, omega (arith, n, m))

abbrev pub HasPrefix : Text × Hit → Type 0
HasPrefix i = length i.0 ≡ prefix_len

assign-HasPrefix :
    (k : Text) (v : Hit) (d : List (Text × Hit))
    → length k ≡ prefix_len
    → All HasPrefix d
    → All HasPrefix (assign k v d)
unfolding assign
assign-HasPrefix k v [] h a = (h, tt)
assign-HasPrefix k v ((j, w) ∷ d) h (e, a) = elim (Bool-cases (text_eq j k)) [
  | inl q ↦ rw q (e, a)
  | inr q ↦ rw q (e, assign-HasPrefix k v d h a)
]

assign_hit-HasPrefix :
    (k : Text) (hit : Option Hit) (d : List (Text × Hit))
    → length k ≡ prefix_len
    → All HasPrefix d
    → All HasPrefix (assign_hit k hit d)
assign_hit-HasPrefix k none d h a = a
assign_hit-HasPrefix k (some hit) d h a = assign-HasPrefix k hit d h a

pub match_rows-HasPrefix :
    (rows : List (Text × Text)) (matched : List (Text × Hit))
    → All (λ row. length row.0 ≡ prefix_len) rows
    → All HasPrefix matched
    → All HasPrefix (match_rows matched rows)
unfolding match_rows
match_rows-HasPrefix [] matched r a = a
match_rows-HasPrefix ((prefix, organization) ∷ rows) matched (h, r) a =
    match_rows-HasPrefix rows _ r (assign_hit-HasPrefix prefix (classify organization) matched h a)

All-if :
    {A : Type 0} (P : A → Type 0) (b : Bool) (x : A) (rest : List A)
    → (b ≡ true → P x)
    → All P rest
    → All P (if b then x ∷ rest else rest)
All-if P true x rest h a = (h refl, a)
All-if P false x rest h a = a

-- Every row that is kept has a prefix of six characters.
pub load_rows-prefixes :
    (rows : List RegistryRow) → All (λ row. length row.0 ≡ prefix_len) (load_rows rows)
unfolding load_rows
load_rows-prefixes [] = tt
load_rows-prefixes (row ∷ rows) =
    All-if (λ kept. length kept.0 ≡ prefix_len) _ _ (load_rows rows) (λ h. ground arith)
      (load_rows-prefixes rows)

pub map-All :
    (Q : Hit → Type 0) (is : List (Text × Hit)) → All Q (map (λ i. i.1) is) → All (λ i. Q i.1) is
map-All Q [] a = tt
map-All Q (i ∷ is) (p, a) = (p, map-All Q is a)

pub both-All :
    (P Q : Text × Hit → Type 0) (is : List (Text × Hit))
    → All P is
    → All Q is
    → All (λ i. P i × Q i) is
both-All P Q [] a b = tt
both-All P Q (i ∷ is) (p, a) (q, b) = ((p, q), both-All P Q is a b)

-- A prefix of six characters, and a display that has a place among the vendors.
abbrev pub Sound : List Text → Text × Hit → Type 0
Sound vendors i = HasPrefix i × Covered vendors i.1

pub records-length :
    (items : List (Text × Hit)) (vendors : List Text)
    → length vendors < max_vendors
    → All (Sound vendors) items
    → (out : Text) × (records vendors items ≡ built out) × (length out ≡ record_len * length items)
unfolding records
records-length [] vendors h a = ([], refl, refl)
records-length ((prefix, (display, icon)) ∷ items) vendors h ((p, c), a) =
    let near = slot-≤ display vendors c in
    let (index, e, l, v) = base36-number36 (slot display vendors) (omega arith) in
    let (more, f, m) = records-length items vendors h a in
    (
      prefix ++ (index ++ more),
      rw (e, f) refl,
      omega (arith, p, l, m, length-append prefix (index ++ more), length-append index more),
    )

-- The dictionary `matched` of a registry, and the vendors and icons that are collected from it.
abbrev pub matched_of : List RegistryRow → List (Text × Hit)
matched_of rows = match_rows [] (load_rows rows)

abbrev pub known_of : List RegistryRow → List Text × List Text
known_of rows = collect [] [] (sorted_hits (map (λ i. i.1) (matched_of rows)))

pub matched-Sound : (rows : List RegistryRow) → All (Sound (known_of rows).0) (matched_of rows)
matched-Sound rows =
    let matched = matched_of rows in
    let hits = map (λ i. i.1) matched in
    let known = known_of rows in
    both-All HasPrefix (λ i. Covered known.0 i.1) matched
      (match_rows-HasPrefix (load_rows rows) [] (load_rows-prefixes rows) tt)
      (map-All (Covered known.0) matched (
        sorted_hits-All (λ t. elem t known.0 ≡ true) hits
          (collect-Covered (sorted_hits hits) [] [])))

-- The vendors are the displays of the hits, each once.
pub record AreVendors (matched : List (Text × Hit)) (vendors : List Text) : Type 0 where
  pub all_shown : All (λ i. Covered vendors i.1) matched
  pub displayed :
      (t : Text) → elem t vendors ≡ true → elem t (displays (map (λ i. i.1) matched)) ≡ true
  pub once : OnlyOnce vendors

-- What is built of the prefixes that are matched, with their vendors: where these can be counted in
-- the index, a table of the vendors, with a record of the fixed width for each prefix; and else the
-- error that they are too many.
abbrev pub IsBuilt : List (Text × Hit) → List Text → Build Table → Type 0
IsBuilt matched vendors b =
    ((length vendors < max_vendors)
      × (table : Table) × (b ≡ built table)
      × (table.vendors ≡ vendors)
      × (table.matched ≡ length matched)
      × (length table.index ≡ record_len * length matched))
    ⊎ ((max_vendors ≤ length vendors) × (b ≡ stopped (too_many_vendors (length vendors))))
