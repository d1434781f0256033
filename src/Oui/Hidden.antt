-- ===== src/Oui/Hidden.antt =====
-- Which rows of the table `classify` can never reach.
use openwrt_grafana_monitor.Prelude.{
  All, Bool, Bool-cases, List, Option, [], any, ap, arith, false, inl, inr, none, not, refl, some,
  subst, true, ◌&&◌, ◌||◌, ◌∙◌, ◌∷◌, ◌≡◌, ◌≢◌,
}
use openwrt_grafana_monitor.Text.{
  Text, codes, contains, lower, starts_with, text_eq, text_eq_refl, text_eq→eq,
}
use openwrt_grafana_monitor.Oui.Build.{Hit, classify, first_match}
use openwrt_grafana_monitor.Oui.Rules.{Rule, rule, rules}

starts_with_trans :
    (p q s : Text) → starts_with p q ≡ true → starts_with q s ≡ true → starts_with p s ≡ true
unfolding starts_with
starts_with_trans [] q s h k = refl
starts_with_trans (x ∷ p) [] s h k = ground arith
starts_with_trans (x ∷ p) (y ∷ q) [] h k = ground arith
starts_with_trans (x ∷ p) (y ∷ q) (c ∷ s) h k = ground (arith, starts_with_trans p q s)

starts_with-contains :
    (p q s : Text) → contains p q ≡ true → starts_with q s ≡ true → contains p s ≡ true
unfolding contains starts_with
starts_with-contains [] [] [] h k = refl
starts_with-contains [] [] (c ∷ s) h k = refl
starts_with-contains (x ∷ p) [] s h k = ground arith
starts_with-contains p (y ∷ q) [] h k = ground arith
starts_with-contains p (y ∷ q) (c ∷ s) h k =
    ground (arith, starts_with-contains p q s, starts_with_trans p (y ∷ q) (c ∷ s))

-- A part of a part of a text is a part of the text.
contains_trans : (p q s : Text) → contains p q ≡ true → contains q s ≡ true → contains p s ≡ true
unfolding contains
contains_trans p [] [] h k = h
contains_trans p (y ∷ q) [] h k = ground arith
contains_trans p q (c ∷ s) h k =
    ground (arith, contains_trans p q s h, starts_with-contains p q (c ∷ s) h)

-- Each row that shows `display` has a pattern that holds a pattern of a row before it.
unfoldable pub is_hidden : Text → List Text → List Rule → Bool
unfolding contains text_eq any
is_hidden display earlier [] = true
is_hidden display earlier (r ∷ rs) =
    (not (text_eq r.display display) || any (λ p. contains p r.pattern_text) earlier)
    && is_hidden display (r.pattern_text ∷ earlier) rs

-- A text that holds none of the patterns does not hold a text that holds one of them.
none_inside :
    (q s : Text) (earlier : List Text)
    → any (λ p. contains p q) earlier ≡ true
    → All (λ p. contains p s ≡ false) earlier
    → contains q s ≡ false
unfolding any
none_inside q s [] h a = ground arith
none_inside q s (p ∷ earlier) h (e, a) =
    ground (arith, none_inside q s earlier, contains_trans p q s)

abbrev shown : Option Hit → Text
shown none = []
shown (some hit) = hit.0

display-text_eq : (hit expected : Hit) → some hit ≡ some expected → text_eq hit.0 expected.0 ≡ true
display-text_eq hit expected e = subst (λ o. text_eq hit.0 (shown o) ≡ true) e (text_eq_refl hit.0)

first_match-hidden :
    (display icon s : Text) (earlier : List Text) (rs : List Rule)
    → is_hidden display earlier rs ≡ true
    → All (λ p. contains p s ≡ false) earlier
    → first_match rs s ≢ some (display, icon)
unfolding is_hidden first_match
first_match-hidden display icon s earlier [] h a e = cc
first_match-hidden display icon s earlier (r ∷ rs) h a e =
    elim (Bool-cases (contains r.pattern_text s)) [
      | inl c ↦ ground (
        arith,
        none_inside r.pattern_text s earlier,
        display-text_eq (r.display, r.icon) (display, icon),
      )
      | inr c ↦
          first_match-hidden display icon s (r.pattern_text ∷ earlier) rs (ground arith) (c, a)
            (ground arith)
    ]

qingdao_hidden : is_hidden (codes "Qingdao Intelligent") [] rules ≡ true
unfolding is_hidden codes rule
qingdao_hidden = refl

classify-hidden : (org icon : Text) → classify org ≢ some (codes "Qingdao Intelligent", icon)
unfolding classify
classify-hidden org icon =
    first_match-hidden (codes "Qingdao Intelligent") icon (lower org) [] rules qingdao_hidden tt

-- Some rule has the pattern.
unfoldable is_pattern : Text → List Rule → Bool
unfolding text_eq
is_pattern p [] = false
is_pattern p (r ∷ rs) = text_eq p r.pattern_text || is_pattern p rs

-- A name that holds the pattern of a rule is shown, by that rule or by another.
first_match-pattern :
    (p s : Text) (rs : List Rule)
    → is_pattern p rs ≡ true
    → contains p s ≡ true
    → (hit : Hit) × (first_match rs s ≡ some hit)
unfolding is_pattern first_match
first_match-pattern p s [] h c = absurd (ground arith)
first_match-pattern p s (r ∷ rs) h c = elim (Bool-cases (contains r.pattern_text s)) [
  | inl q ↦ ((r.display, r.icon), rw q refl)
  | inr q ↦ elim (Bool-cases (text_eq p r.pattern_text)) [
    | inl e ↦
        let here = subst (λ t. contains t s ≡ true) (text_eq→eq p r.pattern_text e) c in
        absurd (ground arith)
    | inr e ↦ let (hit, same) = first_match-pattern p s rs (ground arith) c in (hit, rw q same)
  ]
]

qingdao_pattern : is_pattern (codes "qingdao intelligent") rules ≡ true
unfolding is_pattern codes rule
qingdao_pattern = refl

-- A name that holds "qingdao intelligent", in any case, is classified, and not as "Qingdao
-- Intelligent": another row's display is shown.
pub classify-other :
    (org : Text)
    → contains (codes "qingdao intelligent") (lower org) ≡ true
    → (hit : Hit) × (classify org ≡ some hit) × (hit.0 ≢ codes "Qingdao Intelligent")
unfolding classify
classify-other org h =
    let (hit, same) =
      first_match-pattern (codes "qingdao intelligent") (lower org) rules qingdao_pattern h in
    (hit, same, λ e. classify-hidden org hit.1 (same ∙ ap (λ display. some (display, hit.1)) e))
