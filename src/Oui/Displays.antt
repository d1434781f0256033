-- ===== src/Oui/Displays.antt =====
-- The vendors that `build` of scripts/build_oui_table.py collects are displays of hits, each once.
use openwrt_grafana_monitor.Prelude.{
  Bool, Bool-cases, List, [], arith, false, if◌then◌else◌, inl, inr, refl, subst, true, ◌++◌, ◌||◌,
  ◌∷◌, ◌≡◌,
}
use openwrt_grafana_monitor.Text.{Text, elem, text_eq, text_eq-sym}
use openwrt_grafana_monitor.Oui.Build.{Hit, collect, hit_eq, hit_lt, insert_hit, sorted_hits}
use openwrt_grafana_monitor.Oui.Vendors.{collect-known, collect-new}

abbrev pub displays : List Hit → List Text
displays [] = []
displays (hit ∷ hits) = hit.0 ∷ displays hits

-- No text stands twice.
abbrev pub OnlyOnce : List Text → Type 0
OnlyOnce [] = Unit
OnlyOnce (t ∷ ts) = (elem t ts ≡ false) × OnlyOnce ts

elem-end :
    (t : Text) (ts : List Text) (k : Text) → elem t (ts ++ k ∷ []) ≡ (elem t ts || text_eq t k)
unfolding elem
elem-end t [] k = ground arith
elem-end t (u ∷ ts) k = ground (arith, elem-end t ts k)

OnlyOnce-end :
    (ts : List Text) (k : Text) → elem k ts ≡ false → OnlyOnce ts → OnlyOnce (ts ++ k ∷ [])
unfolding elem
OnlyOnce-end [] k e a = (refl, tt)
OnlyOnce-end (t ∷ ts) k e (f, a) =
    (rw (elem-end t ts k) (ground (arith, text_eq-sym t k)), OnlyOnce-end ts k (ground arith) a)

pub collect-OnlyOnce :
    (hits : List Hit) (vendors icons : List Text)
    → OnlyOnce vendors
    → OnlyOnce (collect vendors icons hits).0
unfolding collect
collect-OnlyOnce [] vendors icons a = a
collect-OnlyOnce ((display, icon) ∷ hits) vendors icons a =
    elim (Bool-cases (elem display vendors)) [
      | inl q ↦ rw q (collect-OnlyOnce hits vendors icons a)
      | inr q ↦ rw q (
          collect-OnlyOnce hits (vendors ++ display ∷ []) (icons ++ icon ∷ [])
            (OnlyOnce-end vendors display q a))
    ]

pub collect-displays :
    (t : Text) (hits : List Hit) (vendors icons : List Text)
    → elem t (collect vendors icons hits).0 ≡ true
    → (elem t vendors || elem t (displays hits)) ≡ true
unfolding collect elem
collect-displays t [] vendors icons h = ground arith
collect-displays t ((display, icon) ∷ hits) vendors icons h =
    elim (Bool-cases (elem display vendors)) [
      | inl q ↦
          let there = collect-displays t hits vendors icons (
            subst (λ known. elem t known.0 ≡ true) (collect-known display icon hits vendors icons q)
              h) in
          ground arith
      | inr q ↦
          let there = collect-displays t hits (vendors ++ display ∷ []) (icons ++ icon ∷ []) (
            subst (λ known. elem t known.0 ≡ true) (collect-new display icon hits vendors icons q)
              h) in
          ground (arith, elem-end t vendors display)
    ]

-- A display after the insertion of a hit.
shown_after :
    (t : Text) (h k : Hit) (ks more : List Hit) (before same : Bool)
    → (elem t (displays more) ≡ true → (text_eq t h.0 || elem t (displays ks)) ≡ true)
    → elem t (displays (if before then h ∷ k ∷ ks else if same then k ∷ ks else k ∷ more)) ≡ true
    → (text_eq t h.0 || elem t (displays (k ∷ ks))) ≡ true
unfolding elem
shown_after t h k ks more true same rest e = ground arith
shown_after t h k ks more false true rest e = ground arith
shown_after t h k ks more false false rest e = ground (arith, rest)

insert_hit-displays :
    (t : Text) (h : Hit) (ks : List Hit)
    → elem t (displays (insert_hit h ks)) ≡ true
    → (text_eq t h.0 || elem t (displays ks)) ≡ true
unfolding insert_hit elem
insert_hit-displays t h [] e = ground arith
insert_hit-displays t h (k ∷ ks) e =
    shown_after t h k ks (insert_hit h ks) (hit_lt h k) (hit_eq h k) (insert_hit-displays t h ks) e

pub sorted_hits-displays :
    (t : Text) (hits : List Hit)
    → elem t (displays (sorted_hits hits)) ≡ true
    → elem t (displays hits) ≡ true
unfolding sorted_hits elem
sorted_hits-displays t [] e = e
sorted_hits-displays t (h ∷ hits) e =
    ground (arith, insert_hit-displays t h (sorted_hits hits) e, sorted_hits-displays t hits)
