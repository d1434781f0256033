-- ===== src/Oui/Lookup/Vendor.antt =====
-- From the registry to the router: the vendor that the lookup of a MAC address shows is the one that
-- the generator classified its prefix as.
use openwrt_grafana_monitor.Prelude.{
  All, Bool-cases, List, Option, Option-cases, [], ap, arith, false, inl, inr, length, none, refl,
  some, subst, suc, sym, true, zero, ℕ, ◌*◌, ◌/◌, ◌<◌, ◌∙◌, ◌∷◌, ◌≡◌,
}
use openwrt_grafana_monitor.Text.{Text, lookup, text_eq, text_eq→eq}
use openwrt_grafana_monitor.Oui.Lookup.Records.{Reads, built-injective, item_at, records-Reads}
use openwrt_grafana_monitor.Oui.Build.{Hit, built, max_vendors, record_len, records, slot, text_lt}
use openwrt_grafana_monitor.Oui.Lookup.{Found, absent, found, search, text_lt}
use mathlib.Core.Option.{some-injective}
use openwrt_grafana_monitor.Oui.Sorted.{IsSorted, Item}
use openwrt_grafana_monitor.Oui.Lookup.Search.{IsAscending, search-absent, search-found}
use openwrt_grafana_monitor.Oui.Records.{Sound, records-length}

first_item :
    (k p : Text) (v hit : Hit) (items : List Item)
    → text_eq k p ≡ true
    → some v ≡ some hit
    → item_at 0 ((k, v) ∷ items) ≡ some (p, hit)
first_item k p v hit items q e =
    ap (λ t. item_at 0 ((t, v) ∷ items)) (text_eq→eq k p q)
    ∙ ap (λ w. item_at 0 ((p, w) ∷ items)) (some-injective v hit e)

pub item_at-lookup :
    (items : List Item) (p : Text) (hit : Hit)
    → lookup p items ≡ some hit
    → (n : ℕ) × (n < length items) × (item_at n items ≡ some (p, hit))
unfolding lookup
item_at-lookup [] p hit h = cc
item_at-lookup ((k, v) ∷ items) p hit h = elim (Bool-cases (text_eq k p)) [
  | inl q ↦ (0, omega arith, first_item k p v hit items q (ground arith))
  | inr q ↦
      let (n, b, e) = item_at-lookup items p hit (ground arith) in (suc n, omega (arith, b), e)
]

not-lookup :
    (items : List Item) (p : Text) (n : ℕ) (i : Item)
    → lookup p items ≡ none
    → item_at n items ≡ some i
    → text_eq i.0 p ≡ false
unfolding lookup
not-lookup [] p n i h e = cc
not-lookup ((k, v) ∷ items) p zero i h e =
    subst (λ j. text_eq j.0 p ≡ false) (some-injective (k, v) i e) (ground arith)
not-lookup ((k, v) ∷ items) p (suc n) i h e = not-lookup items p n i (ground arith) e

item_at-some :
    (items : List Item) (n : ℕ) → n < length items → (i : Item) × (item_at n items ≡ some i)
item_at-some [] n h = absurd (omega arith)
item_at-some (i ∷ items) zero h = (i, refl)
item_at-some (i ∷ items) (suc n) h = item_at-some items n (omega arith)

pub All-item_at :
    (P : Item → Type 0) (items : List Item) (n : ℕ) (i : Item)
    → All P items
    → item_at n items ≡ some i
    → P i
All-item_at P [] n i a e = cc
All-item_at P (j ∷ items) zero i (p, a) e = subst P (some-injective j i e) p
All-item_at P (j ∷ items) (suc n) i (p, a) e = All-item_at P items n i a e

IsSorted-item_at :
    (items : List Item) (m n : ℕ) (i j : Item)
    → IsSorted items
    → m < n
    → item_at m items ≡ some i
    → item_at n items ≡ some j
    → text_lt i.0 j.0 ≡ true
IsSorted-item_at [] m n i j s l e f = cc
IsSorted-item_at ((k, v) ∷ items) m zero i j s l e f = absurd (omega arith)
IsSorted-item_at ((k, v) ∷ items) zero (suc n) i j (a, s) l e f =
    subst (λ h. text_lt h.0 j.0 ≡ true) (some-injective (k, v) i e)
      (All-item_at (λ h. text_lt k h.0 ≡ true) items n j a f)
IsSorted-item_at ((k, v) ∷ items) (suc m) (suc n) i j (a, s) l e f =
    IsSorted-item_at items m n i j s (omega arith) e f

-- The slot that the search should find.
abbrev pub slot_of : List Text → Option Hit → Found
slot_of vendors none = absent
slot_of vendors (some hit) = found (some (slot hit.0 vendors))

module _ (vendors : List Text) (few : length vendors < max_vendors) (items : List Item) (out : Text)
    (sound : All (Sound vendors) items) (made : records vendors items ≡ built out)
    (sorted : IsSorted items) where
  counted : length out / record_len ≡ length items
  counted =
      let (more, f, m) = records-length items vendors few sound in
      let long =
        subst (λ o. length o ≡ record_len * length items) (built-injective (sym f ∙ made)) m in
      omega (arith, long)

  reads :
      (n : ℕ) → n < length items → (i : Item) × (item_at n items ≡ some i) × Reads out vendors n i
  reads n h =
      let (i, e) = item_at-some items n h in
      (i, e, records-Reads vendors few items out sound made n i e)

  ascending : (p : Text) → IsAscending out p (length out / record_len)
  ascending p m n l b =
      let (i, e, r) = reads m (omega (arith, counted)) in
      let (j, f, q) = reads n (omega (arith, counted)) in
      rw (r.key, q.key) (IsSorted-item_at items m n i j sorted l e f)

  -- The search in a built index is the lookup among the items it was built from.
  pub search-lookup : (p : Text) → search out p ≡ slot_of vendors (lookup p items)
  search-lookup p = elim (Option-cases (lookup p items)) [
    | inl h ↦ rw h (
        search-absent out p (λ n b.
          let (i, e, r) = reads n (omega (arith, counted)) in
          rw (r.key) (not-lookup items p n i h e)))
    | inr (hit, h) ↦
        let (n, b, e) = item_at-lookup items p hit h in
        let r = records-Reads vendors few items out sound made n (p, hit) e in
        rw h
          (search-found out p n (ascending p) (omega (arith, counted, b)) r.key ∙ ap found r.value)
  ]
