-- ===== src/Oui/Lookup/Registry.antt =====
-- From the registry to the router: the vendor that the lookup of a MAC address shows is the one that
-- the generator classified its prefix as.
use openwrt_grafana_monitor.Prelude.{
  All, Bool, Bool-cases, List, Option, [], ap, arith, false, if◌then◌else◌, inl, inr, leb, length,
  none, refl, some, subst, suc, sym, true, zero, ℕ, ◌<◌, ◌∙◌, ◌∷◌, ◌≡◌, ◌≤◌,
}
use openwrt_grafana_monitor.Text.{Text, elem, lookup, text_eq, text_eq-sym, text_eq→eq}
use openwrt_grafana_monitor.Oui.Build.{
  Build, Hit, RegistryRow, Table, build, build_from, built, finish, load_rows, match_rows,
  max_vendors, prefix_len, records, slot, sorted_items, stopped, too_many_vendors,
}
use openwrt_grafana_monitor.Oui.Lookup.{
  answer, entry, hex_only, is_local, lookup_mac, of_search, search, slice,
}
use openwrt_grafana_monitor.Oui.Lookup.Vendor.{All-item_at, item_at-lookup, search-lookup, slot_of}
use openwrt_grafana_monitor.Oui.Records.{
  Sound, known_of, matched-Sound, matched_of, sorted_items-All,
}
use openwrt_grafana_monitor.Oui.Lookup.Records.{built-injective}
use openwrt_grafana_monitor.Oui.Rules.{Rule}
use openwrt_grafana_monitor.Oui.Sorted.{
  first_of, last_match, lookup-match_rows, match_rows-IsDistinct, sorted_items-IsSorted,
}

entry-first : (v : Text) (vs : List Text) → entry 1 (v ∷ vs) ≡ some v
unfolding entry
entry-first v vs = refl

elem-rest :
    (display v : Text) (vs : List Text)
    → elem display (v ∷ vs) ≡ true
    → text_eq v display ≡ false
    → elem display vs ≡ true
unfolding elem
elem-rest display v vs h q = ground (arith, text_eq-sym display v)

-- The parts of a table that was built.
pub record HasParts (matched : List (Text × Hit)) (known : List Text × List Text) (table : Table)
    : Type 0 where
  pub few : length known.0 < max_vendors
  pub made : records known.0 (sorted_items matched) ≡ built table.index
  pub names : table.vendors ≡ known.0

finished :
    (matched : List (Text × Hit)) (vendors icons : List Text) (table : Table) (many : Bool)
    (m : Build Text)
    → leb max_vendors (length vendors) ≡ many
    → records vendors (sorted_items matched) ≡ m
    → (if many
        then stopped (too_many_vendors (length vendors))
        else finish vendors icons (length matched) m)
      ≡ built table
    → HasParts matched (vendors, icons) table
finished matched vendors icons table true m q e h = cc
finished matched vendors icons table false (stopped x) q e h = cc
finished matched vendors icons table false (built index) q e h =
    let same = built-injective h in
    record {
      few = ground arith;
      made = e ∙ ap (λ t. built t.index) same;
      names = sym (ap (λ t. t.vendors) same);
    }

build_from-HasParts :
    (matched : List (Text × Hit)) (known : List Text × List Text) (table : Table)
    → build_from matched known ≡ built table
    → HasParts matched known table
build_from-HasParts matched (vendors, icons) table h =
    finished matched vendors icons table _ _ refl refl h

slot-positive :
    (display : Text) (vendors : List Text) → elem display vendors ≡ true → 1 ≤ slot display vendors
unfolding slot elem
slot-positive display [] h = cc
slot-positive display (v ∷ vs) h = ground (arith, text_eq-sym display v)

entry-next : (n : ℕ) (v : Text) (vs : List Text) → 1 ≤ n → entry (suc n) (v ∷ vs) ≡ entry n vs
unfolding entry
entry-next zero v vs h = absurd (omega arith)
entry-next (suc n) v [] h = refl
entry-next (suc n) v (w ∷ vs) h = refl

-- The name at the slot of a display is the display.
entry-slot :
    (display : Text) (vendors : List Text)
    → elem display vendors ≡ true
    → entry (slot display vendors) vendors ≡ some display
unfolding slot elem
entry-slot display [] h = cc
entry-slot display (v ∷ vs) h = elim (Bool-cases (text_eq v display)) [
  | inl q ↦ rw q (entry-first v vs ∙ ap some (text_eq→eq v display q))
  | inr q ↦
      let there = elem-rest display v vs h q in
      rw q (
        entry-next (slot display vs) v vs (slot-positive display vs there)
        ∙ entry-slot display vs there)
]

-- What the lookup shows for a classification.
abbrev pub name_of : Option Hit → Option Text
name_of none = none
name_of (some hit) = some hit.0

shown_name :
    (table : Table) (hit : Option Hit)
    → ((h : Hit) → hit ≡ some h → elem h.0 table.vendors ≡ true)
    → (of_search table (slot_of table.vendors hit)).vendor ≡ name_of hit
shown_name table none k = refl
shown_name table (some hit) k = entry-slot hit.0 table.vendors (k hit refl)

lookup-All :
    (P : Text × Hit → Type 0) (p : Text) (items : List (Text × Hit)) (hit : Hit)
    → All P items
    → lookup p items ≡ some hit
    → P (p, hit)
lookup-All P p items hit a e =
    let (n, b, at) = item_at-lookup items p hit e in All-item_at P items n (p, hit) a at

first_of-none : (o : Option Hit) → first_of o none ≡ o
first_of-none none = refl
first_of-none (some a) = refl

classified :
    (rows : List (Text × Text)) (p : Text) → lookup p (match_rows [] rows) ≡ last_match p rows
unfolding lookup
classified rows p = lookup-match_rows rows [] p ∙ first_of-none (last_match p rows)

-- The search in the index of a table that is built finds what the prefix is classified as.
search-build :
    (rows : List RegistryRow) (table : Table) (p : Text)
    → build (load_rows rows) ≡ built table
    → (of_search table (search table.index p)).vendor ≡ name_of (last_match p (load_rows rows))
unfolding build
search-build rows table p h =
    let matched = matched_of rows in
    let parts = build_from-HasParts matched (known_of rows) table h in
    let sound = matched-Sound rows in
    let (sorted, same) =
      sorted_items-IsSorted matched (match_rows-IsDistinct (load_rows rows) [] tt) in
    let (sound_items, n) = sorted_items-All (Sound (known_of rows).0) matched sound in
    let seen = classified (load_rows rows) p in
    let there =
      search-lookup (known_of rows).0 parts.few (sorted_items matched) table.index sound_items
        parts.made sorted p in
    ap (λ f. (of_search table f).vendor)
      (there
        ∙ ap (slot_of (known_of rows).0) (same p ∙ seen)
        ∙ ap (λ v. slot_of v (last_match p (load_rows rows))) (sym parts.names))
    ∙ shown_name table (last_match p (load_rows rows)) (λ hit e.
      subst (λ v. elem hit.0 v ≡ true) (sym parts.names)
        (lookup-All (Sound (known_of rows).0) p matched hit sound (seen ∙ e)).1)

-- For an address that is well-formed and not locally administered, the router shows the vendor that
-- the generator classified the last row of its prefix as, of those rows that it classified; and it
-- shows none, where there is no such row.
pub lookup_mac-build :
    (rows : List RegistryRow) (table : Table) (ranges : List Rule) (mac hex : Text)
    → build (load_rows rows) ≡ built table
    → hex_only mac ≡ some hex
    → is_local hex ≡ false
    → (lookup_mac (some (table, ranges)) mac).vendor
      ≡ name_of (last_match (slice 0 prefix_len hex) (load_rows rows))
unfolding lookup_mac
lookup_mac-build rows table ranges mac hex h e l =
    ap (λ o. (answer (some (table, ranges)) o).vendor) e
    ∙ (rw l (search-build rows table (slice 0 prefix_len hex) h))
