-- ===== src/Oui/Sorted.antt =====
-- The dictionary of `build`, and its items in order: what is found in them under a prefix.
use openwrt_grafana_monitor.Prelude.{
  All, All-mono, Bool-cases, List, Option, [], ap, arith, false, if◌then◌else◌, inl, inr, none,
  refl, some, subst, sym, true, ◌∙◌, ◌∷◌, ◌≡◌,
}
use openwrt_grafana_monitor.Text.{Text, lookup, text_eq, text_eq_refl, text_eq→eq}
use openwrt_grafana_monitor.Oui.Build.{
  Hit, assign, assign_hit, classify, insert_item, match_rows, sorted_items, text_lt,
}
use openwrt_grafana_monitor.Oui.Order.{text_lt_total, text_lt_trans}
use openwrt_grafana_monitor.Oui.Records.{insert_item-All}

abbrev pub Item : Type 0
Item = Text × Hit

-- No key stands twice.
abbrev pub IsDistinct : List Item → Type 0
IsDistinct [] = Unit
IsDistinct ((k, v) ∷ is) = (lookup k is ≡ none) × IsDistinct is

-- The keys ascend.
abbrev pub IsSorted : List Item → Type 0
IsSorted [] = Unit
IsSorted ((k, v) ∷ is) = All (λ i. text_lt k i.0 ≡ true) is × IsSorted is

text_eq-both : (j k p : Text) → text_eq j p ≡ true → text_eq k p ≡ true → text_eq j k ≡ true
text_eq-both j k p h e = subst (λ t. text_eq j t ≡ true) (sym (text_eq→eq k p e)) h

text_eq-false : (s t : Text) → text_eq s t ≡ false → text_eq t s ≡ false
text_eq-false s t h = elim (Bool-cases (text_eq t s)) [
  | inl e ↦ ground (arith, subst (λ u. text_eq u t ≡ true) (text_eq→eq t s e) (text_eq_refl t))
  | inr e ↦ e
]

lookup-insert_item :
    (p k : Text) (v : Hit) (is : List Item)
    → lookup k is ≡ none
    → lookup p (insert_item (k, v) is) ≡ lookup p ((k, v) ∷ is)
unfolding lookup insert_item
lookup-insert_item p k v [] h = refl
lookup-insert_item p k v ((j, w) ∷ is) h =
    ground (arith, lookup-insert_item p k v is, text_eq-both j k p)

insert_item-IsSorted :
    (k : Text) (v : Hit) (is : List Item)
    → lookup k is ≡ none
    → IsSorted is
    → IsSorted (insert_item (k, v) is)
unfolding lookup insert_item
insert_item-IsSorted k v [] h s = (tt, tt)
insert_item-IsSorted k v ((j, w) ∷ is) h (a, s) = elim (Bool-cases (text_lt k j)) [
  | inl l ↦ rw l (
    (
      l,
      All-mono (λ i. text_lt j i.0 ≡ true) (λ i. text_lt k i.0 ≡ true)
          (λ i m. text_lt_trans k j i.0 l m) is a,
    ),
    (a, s),
  )
  | inr l ↦
      let (b, n) =
        insert_item-All (λ i. text_lt j i.0 ≡ true) (k, v) is
          (text_lt_total k j (text_eq-false j k (ground arith)) l) a in
      rw l (b, insert_item-IsSorted k v is (ground arith) s)
]

-- Sorting a dictionary puts its keys in order, and finds the same under each.
pub sorted_items-IsSorted :
    (is : List Item)
    → IsDistinct is
    → IsSorted (sorted_items is) × ((p : Text) → lookup p (sorted_items is) ≡ lookup p is)
unfolding sorted_items lookup
sorted_items-IsSorted [] d = (tt, λ p. refl)
sorted_items-IsSorted ((k, v) ∷ is) (n, d) =
    let (s, same) = sorted_items-IsSorted is d in
    let fresh = same k ∙ n in
    (
      insert_item-IsSorted k v (sorted_items is) fresh s,
      λ p.
          lookup-insert_item p k v (sorted_items is) fresh
          ∙ ap (λ o. if text_eq k p then some v else o) (same p),
    )

lookup-assign :
    (p k : Text) (v : Hit) (d : List Item)
    → lookup p (assign k v d) ≡ (if text_eq k p then some v else lookup p d)
unfolding lookup assign
lookup-assign p k v [] = refl
lookup-assign p k v ((j, w) ∷ d) = elim (Bool-cases (text_eq j k)) [
  | inl q ↦ ground (arith, ap (λ t. text_eq t p) (text_eq→eq j k q))
  | inr q ↦ ground (arith, lookup-assign p k v d, text_eq-both j k p)
]

assign-IsDistinct : (k : Text) (v : Hit) (d : List Item) → IsDistinct d → IsDistinct (assign k v d)
unfolding assign lookup
assign-IsDistinct k v [] h = (refl, tt)
assign-IsDistinct k v ((j, w) ∷ d) (n, h) = elim (Bool-cases (text_eq j k)) [
  | inl e ↦ rw e (n, h)
  | inr e ↦
      rw e (ground (arith, lookup-assign j k v d, text_eq-false j k e), assign-IsDistinct k v d h)
]

abbrev pub first_of {ℓ} : {A : Type ℓ} → Option A → Option A → Option A
first_of none o = o
first_of (some a) o = some a

-- What the last row under a prefix, of those that are classified, is classified as.
unfoldable pub last_match : Text → List (Text × Text) → Option Hit
unfolding text_eq
last_match p [] = none
last_match p ((q, organization) ∷ rows) =
    first_of (last_match p rows) (if text_eq q p then classify organization else none)

first_of_assoc : (a b c : Option Hit) → first_of (first_of a b) c ≡ first_of a (first_of b c)
first_of_assoc none b c = refl
first_of_assoc (some a) b c = refl

lookup-assign_hit :
    (p k : Text) (hit : Option Hit) (d : List Item)
    → lookup p (assign_hit k hit d) ≡ first_of (if text_eq k p then hit else none) (lookup p d)
lookup-assign_hit p k none d = ground arith
lookup-assign_hit p k (some hit) d = ground (arith, lookup-assign p k hit d)

assign_hit-IsDistinct :
    (k : Text) (hit : Option Hit) (d : List Item) → IsDistinct d → IsDistinct (assign_hit k hit d)
assign_hit-IsDistinct k none d h = h
assign_hit-IsDistinct k (some hit) d h = assign-IsDistinct k hit d h

-- After the loop over the rows, a prefix is found with what the last row that is classified says.
pub lookup-match_rows :
    (rows : List (Text × Text)) (matched : List Item) (p : Text)
    → lookup p (match_rows matched rows) ≡ first_of (last_match p rows) (lookup p matched)
unfolding match_rows last_match
lookup-match_rows [] matched p = refl
lookup-match_rows ((q, organization) ∷ rows) matched p =
    lookup-match_rows rows (assign_hit q (classify organization) matched) p
    ∙ ap (first_of (last_match p rows)) (lookup-assign_hit p q (classify organization) matched)
    ∙ sym (first_of_assoc (last_match p rows) _ (lookup p matched))

pub match_rows-IsDistinct :
    (rows : List (Text × Text)) (matched : List Item)
    → IsDistinct matched
    → IsDistinct (match_rows matched rows)
unfolding match_rows
match_rows-IsDistinct [] matched h = h
match_rows-IsDistinct ((q, organization) ∷ rows) matched h =
    match_rows-IsDistinct rows _ (assign_hit-IsDistinct q (classify organization) matched h)
