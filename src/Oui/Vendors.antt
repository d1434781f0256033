-- ===== src/Oui/Vendors.antt =====
-- The vendors that `build` of scripts/build_oui_table.py collects: every hit has a place among them.
use openwrt_grafana_monitor.Prelude.{
  All, Bool, Bool-cases, List, [], arith, false, if◌then◌else◌, inl, inr, length, refl, subst, sym,
  true, ◌++◌, ◌∷◌, ◌≡◌, ◌≤◌,
}
use openwrt_grafana_monitor.Text.{Text, elem, text_eq-sym, text_eq_refl, text_eq→eq}
use openwrt_grafana_monitor.Oui.Build.{Hit, collect, insert_hit, slot, sorted_hits}

pub slot-≤ :
    (display : Text) (vendors : List Text)
    → elem display vendors ≡ true
    → slot display vendors ≤ length vendors
unfolding slot elem
slot-≤ display [] h = ground arith
slot-≤ display (v ∷ vs) h = ground (arith, slot-≤ display vs, text_eq-sym display v)

elem-front : (t : Text) (xs ys : List Text) → elem t xs ≡ true → elem t (xs ++ ys) ≡ true
unfolding elem
elem-front t [] ys h = ground arith
elem-front t (x ∷ xs) ys h = ground (arith, elem-front t xs ys)

elem-last : (t : Text) (xs : List Text) → elem t (xs ++ t ∷ []) ≡ true
unfolding elem
elem-last t [] = ground (arith, text_eq_refl t)
elem-last t (x ∷ xs) = ground (arith, elem-last t xs)

-- The vendors cover a hit whose display is one of them.
abbrev pub Covered : List Text → Hit → Type 0
Covered vendors hit = elem hit.0 vendors ≡ true

collect-keeps :
    (t : Text) (hits : List Hit) (vendors icons : List Text)
    → elem t vendors ≡ true
    → elem t (collect vendors icons hits).0 ≡ true
unfolding collect
collect-keeps t [] vendors icons h = h
collect-keeps t ((display, icon) ∷ hits) vendors icons h =
    elim (Bool-cases (elem display vendors)) [
      | inl q ↦ rw q (collect-keeps t hits vendors icons h)
      | inr q ↦ rw q (
          collect-keeps t hits (vendors ++ display ∷ []) (icons ++ icon ∷ [])
            (elem-front t vendors (display ∷ []) h))
    ]

pub collect-known :
    (display icon : Text) (hits : List Hit) (vendors icons : List Text)
    → elem display vendors ≡ true
    → collect vendors icons ((display, icon) ∷ hits) ≡ collect vendors icons hits
unfolding collect
collect-known display icon hits vendors icons q = rw q refl

pub collect-new :
    (display icon : Text) (hits : List Hit) (vendors icons : List Text)
    → elem display vendors ≡ false
    → collect vendors icons ((display, icon) ∷ hits)
      ≡ collect (vendors ++ display ∷ []) (icons ++ icon ∷ []) hits
unfolding collect
collect-new display icon hits vendors icons q = rw q refl

abbrev pub CoveredAll : List Hit → List Text × List Text → Type 0
CoveredAll hits known = All (Covered known.0) hits

pub collect-Covered :
    (hits : List Hit) (vendors icons : List Text) → CoveredAll hits (collect vendors icons hits)
collect-Covered [] vendors icons = tt
collect-Covered ((display, icon) ∷ hits) vendors icons = elim (Bool-cases (elem display vendors)) [
  | inl q ↦
      subst (CoveredAll ((display, icon) ∷ hits))
        (sym (collect-known display icon hits vendors icons q))
        (collect-keeps display hits vendors icons q, collect-Covered hits vendors icons)
  | inr q ↦
      subst (CoveredAll ((display, icon) ∷ hits))
        (sym (collect-new display icon hits vendors icons q))
        (
          collect-keeps display hits (vendors ++ display ∷ []) (icons ++ icon ∷ [])
              (elem-last display vendors),
          collect-Covered hits (vendors ++ display ∷ []) (icons ++ icon ∷ []),
        )
]

-- The step of an insertion into the sorted hits.
inserted :
    (P : Text → Type 0) (h k : Hit) (ks more : List Hit) (before same : Bool)
    → (same ≡ true → k.0 ≡ h.0)
    → (All (λ i. P i.0) more → P h.0 × All (λ i. P i.0) ks)
    → All (λ i. P i.0) (if before then h ∷ k ∷ ks else if same then k ∷ ks else k ∷ more)
    → P h.0 × All (λ i. P i.0) (k ∷ ks)
inserted P h k ks more true same e rest a = a
inserted P h k ks more false true e rest (p, a) = (subst P (e refl) p, (p, a))
inserted P h k ks more false false e rest (p, a) = let (q, b) = rest a in (q, (p, b))

insert_hit-All :
    (P : Text → Type 0) (h : Hit) (ks : List Hit)
    → All (λ k. P k.0) (insert_hit h ks)
    → P h.0 × All (λ k. P k.0) ks
unfolding insert_hit
insert_hit-All P h [] (e, a) = (e, tt)
insert_hit-All P (d, c) ((e, j) ∷ ks) a =
    inserted P (d, c) (e, j) ks (insert_hit (d, c) ks) _ _
      (λ same. sym (text_eq→eq d e (ground arith))) (insert_hit-All P (d, c) ks) a

pub sorted_hits-All :
    (P : Text → Type 0) (hits : List Hit)
    → All (λ k. P k.0) (sorted_hits hits)
    → All (λ k. P k.0) hits
unfolding sorted_hits
sorted_hits-All P [] a = tt
sorted_hits-All P (h ∷ hits) a =
    let (p, b) = insert_hit-All P h (sorted_hits hits) a in (p, sorted_hits-All P hits b)
