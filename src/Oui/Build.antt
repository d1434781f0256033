-- ===== src/Oui/Build.antt =====
-- The classification of registered names and the index of scripts/build_oui_table.py.
use openwrt_grafana_monitor.Prelude.{
  Bool, List, Option, [], all, false, if◌then◌else◌, is_empty, leb, length, ltb, map, none, not,
  some, suc, true, zero, ℕ, ◌%◌, ◌&&◌, ◌*◌, ◌++◌, ◌+◌, ◌/◌, ◌==◌, ◌||◌, ◌∷◌,
}
use openwrt_grafana_monitor.Text.{Text, codes, contains, elem, lower, or_empty, strip, text_eq}
use openwrt_grafana_monitor.Oui.Rules.{Rule, rules}

abbrev pub prefix_len : ℕ
prefix_len = 6

abbrev pub index_len : ℕ
index_len = 2

abbrev pub record_len : ℕ
record_len = prefix_len + index_len

-- 36 ** INDEX_LEN
abbrev pub max_vendors : ℕ
max_vendors = 36 * 36

-- `ValueError` of `base36`, and the `SystemExit`s
pub data BuildError : Type 0 where
  index_overflow : BuildError
  too_many_vendors : ℕ → BuildError
  no_rows : BuildError

pub data Build {ℓ} (A : Type ℓ) : Type ℓ where
  built : A → Build A
  stopped : BuildError → Build A

abbrev pub digit36 : ℕ → ℕ
digit36 r = if ltb r 10 then 48 + r else 87 + r

-- The loop of `base36`, with the rounds that are left; and the test behind it.
unfoldable pub base36_from : ℕ → ℕ → Text → Build Text
base36_from zero value out = if value == 0 then built out else stopped index_overflow
base36_from (suc rounds) value out = base36_from rounds (value / 36) (digit36 (value % 36) ∷ out)

unfoldable pub base36 : ℕ → Build Text
unfolding base36_from
base36 value = base36_from index_len value []

-- The first rule, in the order of the table, whose pattern is in the lowered name.
unfoldable pub first_match : List Rule → Text → Option (Text × Text)
unfolding contains
first_match [] lowered = none
first_match (r ∷ rs) lowered =
    if contains r.pattern_text lowered then some (r.display, r.icon) else first_match rs lowered

unfoldable pub classify : Text → Option (Text × Text)
unfolding first_match lower
classify org = first_match rules (lower org)

-- A row of the registry, as `csv.DictReader` gives it: the columns "Registry", "Assignment" and
-- "Organization Name" by `row.get`.
pub record RegistryRow : Type 0 where
  pub registry : Option Text
  pub assignment : Option Text
  pub organization : Option Text

abbrev is_lower_hex : ℕ → Bool
is_lower_hex c = leb b'0' c && leb c b'9' || leb b'a' c && leb c b'f'

abbrev is_ma_l : Option Text → Bool
is_ma_l none = false
is_ma_l (some r) = text_eq r (codes "MA-L")

-- The body of the loop of `load_rows`, on the rows of the decoded registry.
unfoldable pub load_rows : List RegistryRow → List (Text × Text)
unfolding strip or_empty lower all
load_rows [] = []
load_rows (row ∷ rows) =
    let rest = load_rows rows in
    let assignment = lower (strip (or_empty row.assignment)) in
    let organization = strip (or_empty row.organization) in
    if is_ma_l row.registry
      && (length assignment == prefix_len && all is_lower_hex assignment)
      && not (is_empty organization)
    then (assignment, organization) ∷ rest
    else rest

-- The lexicographic order of `str`.
unfoldable pub text_lt : Text → Text → Bool
text_lt [] [] = false
text_lt [] (d ∷ t) = true
text_lt (c ∷ s) [] = false
text_lt (c ∷ s) (d ∷ t) = ltb c d || c == d && text_lt s t

abbrev pub Hit : Type 0
Hit = Text × Text

-- The order of pairs.
unfoldable pub hit_lt : Hit → Hit → Bool
unfolding text_lt text_eq
hit_lt (d, i) (e, j) = text_lt d e || text_eq d e && text_lt i j

abbrev pub hit_eq : Hit → Hit → Bool
hit_eq (d, i) (e, j) = text_eq d e && text_eq i j

-- `matched[prefix] = hit` on a dictionary, which keeps the place of a key that is there.
unfoldable pub assign : Text → Hit → List (Text × Hit) → List (Text × Hit)
unfolding text_eq
assign k v [] = (k, v) ∷ []
assign k v ((j, w) ∷ d) = if text_eq j k then (j, v) ∷ d else (j, w) ∷ assign k v d

abbrev pub assign_hit : Text → Option Hit → List (Text × Hit) → List (Text × Hit)
assign_hit prefix none d = d
assign_hit prefix (some hit) d = assign prefix hit d

unfoldable pub match_rows : List (Text × Hit) → List (Text × Text) → List (Text × Hit)
unfolding assign classify
match_rows matched [] = matched
match_rows matched ((prefix, organization) ∷ rows) =
    match_rows (assign_hit prefix (classify organization) matched) rows

-- `sorted(set(hits))`: insertion into a sorted list without repetition.
unfoldable pub insert_hit : Hit → List Hit → List Hit
unfolding hit_lt text_eq
insert_hit h [] = h ∷ []
insert_hit h (k ∷ ks) =
    if hit_lt h k then h ∷ k ∷ ks else if hit_eq h k then k ∷ ks else k ∷ insert_hit h ks

unfoldable pub sorted_hits : List Hit → List Hit
unfolding insert_hit
sorted_hits [] = []
sorted_hits (h ∷ hs) = insert_hit h (sorted_hits hs)

-- `sorted(matched.items())`: the keys of a dictionary differ, so they alone decide.
unfoldable pub insert_item : Text × Hit → List (Text × Hit) → List (Text × Hit)
unfolding text_lt
insert_item i [] = i ∷ []
insert_item (k, v) ((j, w) ∷ is) =
    if text_lt k j then (k, v) ∷ (j, w) ∷ is else (j, w) ∷ insert_item (k, v) is

unfoldable pub sorted_items : List (Text × Hit) → List (Text × Hit)
unfolding insert_item
sorted_items [] = []
sorted_items (i ∷ is) = insert_item i (sorted_items is)

-- The vendors and icons that the loop over the sorted hits collects; `seen[display]` is the place
-- of the display in `vendors`, from 1.
unfoldable pub collect : List Text → List Text → List Hit → List Text × List Text
unfolding elem
collect vendors icons [] = (vendors, icons)
collect vendors icons ((display, icon) ∷ hits) =
    let known = collect vendors icons hits in
    let new = collect (vendors ++ display ∷ []) (icons ++ icon ∷ []) hits in
    if elem display vendors then known else new

unfoldable pub slot : Text → List Text → ℕ
unfolding text_eq
slot display [] = 0
slot display (v ∷ vs) = if text_eq v display then 1 else suc (slot display vs)

abbrev pub join_record : Text → Build Text → Build Text → Build Text
join_record prefix (built index) (built more) = built (prefix ++ (index ++ more))
join_record prefix (built index) (stopped e) = stopped e
join_record prefix (stopped e) more = stopped e

-- `"".join(prefix + base36(seen[display]) for …)`
unfoldable pub records : List Text → List (Text × Hit) → Build Text
unfolding base36 slot
records vendors [] = built []
records vendors ((prefix, (display, icon)) ∷ items) =
    join_record prefix (base36 (slot display vendors)) (records vendors items)

pub record Table : Type 0 where
  pub index : Text
  pub vendors : List Text
  pub icons : List Text
  pub matched : ℕ

abbrev pub finish : List Text → List Text → ℕ → Build Text → Build Table
finish vendors icons matched (built index) =
    built (record { index = index; vendors = vendors; icons = icons; matched = matched })
finish vendors icons matched (stopped e) = stopped e

abbrev pub build_from : List (Text × Hit) → List Text × List Text → Build Table
build_from matched (vendors, icons) =
    if leb max_vendors (length vendors)
    then stopped (too_many_vendors (length vendors))
    else finish vendors icons (length matched) (records vendors (sorted_items matched))

unfoldable pub build : List (Text × Text) → Build Table
unfolding match_rows sorted_hits collect records sorted_items
build rows =
    let matched = match_rows [] rows in
    build_from matched (collect [] [] (sorted_hits (map (λ i. i.1) matched)))
