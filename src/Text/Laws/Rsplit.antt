-- ===== src/Text/Laws/Rsplit.antt =====
-- `s.rsplit(d, 1)` for one character: it splits at the last occurrence, and nowhere else.
use openwrt_grafana_monitor.Prelude.{
  Bool-cases, Option, [], ap, arith, false, inl, inr, none, refl, some, subst, true, ℕ, ◌++◌, ◌==◌,
  ◌∙◌, ◌∷◌, ◌≡◌,
}
use openwrt_grafana_monitor.Text.{Text, has_char, rsplit_once, split_here}
use mathlib.Core.Option.{some-injective}

pub rsplit_once-none : (d : ℕ) (s : Text) → has_char d s ≡ false → rsplit_once d s ≡ none
unfolding rsplit_once has_char
rsplit_once-none d [] h = refl
rsplit_once-none d (c ∷ s) h = rw (rsplit_once-none d s (ground arith)) (ground arith)

pub rsplit_once-last :
    (d : ℕ) (a b : Text) → has_char d b ≡ false → rsplit_once d (a ++ d ∷ b) ≡ some (a, b)
unfolding rsplit_once has_char
rsplit_once-last d [] b h = rw (rsplit_once-none d b h) (ground arith)
rsplit_once-last d (c ∷ a) b h = rw (rsplit_once-last d a b h) refl

split_none :
    (d c : ℕ) (s : Text) (o : Option (Text × Text))
    → split_here d c s o ≡ none
    → (o ≡ none) × ((c == d) ≡ false)
split_none d c s none h = (refl, ground arith)
split_none d c s (some p) h = cc

-- Where it does not split, the character does not occur.
pub none-rsplit_once : (d : ℕ) (s : Text) → rsplit_once d s ≡ none → has_char d s ≡ false
unfolding rsplit_once has_char
none-rsplit_once d [] h = refl
none-rsplit_once d (c ∷ s) h =
    let (e, q) = split_none d c s (rsplit_once d s) h in ground (arith, none-rsplit_once d s e)

taken_here :
    (d c : ℕ) (s a b : Text)
    → (c == d) ≡ true
    → split_here d c s none ≡ some (a, b)
    → ◌≡◌ {A = Option (Text × Text)} (some ([], s)) (some (a, b))
taken_here d c s a b q h = ground arith

passed_here : (d c : ℕ) (s a b : Text) → (c == d) ≡ false → split_here d c s none ≡ some (a, b) → ⊥
passed_here d c s a b q h = ground arith

split_at_here :
    (d c : ℕ) (s a b : Text) → split_here d c s none ≡ some (a, b) → (c ≡ d) × ([] ≡ a) × (s ≡ b)
split_at_here d c s a b h = elim (Bool-cases (c == d)) [
  | inl q ↦
      let same = some-injective {A = Text × Text} ([], s) (a, b) (taken_here d c s a b q h) in
      (ground arith, ap (λ p. p.0) same, ap (λ p. p.1) same)
  | inr q ↦ absurd (passed_here d c s a b q h)
]

split_case :
    (d c : ℕ) (s a b : Text) (o : Option (Text × Text))
    → rsplit_once d s ≡ o
    → ((x y : Text) → rsplit_once d s ≡ some (x, y) → (s ≡ x ++ d ∷ y) × (has_char d y ≡ false))
    → split_here d c s o ≡ some (a, b)
    → (c ∷ s ≡ a ++ d ∷ b) × (has_char d b ≡ false)
split_case d c s a b none e back k =
    let (same, first, second) = split_at_here d c s a b k in
    (
      ap (λ x. x ∷ s) same ∙ ap (λ t. d ∷ t) second ∙ ap (λ t. t ++ d ∷ b) first,
      subst (λ t. has_char d t ≡ false) second (none-rsplit_once d s e),
    )
split_case d c s a b (some (x, y)) e back k =
    let same = some-injective {A = Text × Text} (c ∷ x, y) (a, b) k in
    let (parts, last) = back x y e in
    (
      ap (λ t. c ∷ t) parts ∙ ap (λ p. p.0 ++ d ∷ p.1) same,
      subst (λ t. has_char d t ≡ false) (ap (λ p. p.1) same) last,
    )

-- Where it splits, the two parts stand around the character, and it is not in the second.
pub some-rsplit_once :
    (d : ℕ) (s a b : Text)
    → rsplit_once d s ≡ some (a, b)
    → (s ≡ a ++ d ∷ b) × (has_char d b ≡ false)
unfolding rsplit_once
some-rsplit_once d [] a b h = cc
some-rsplit_once d (c ∷ s) a b h =
    split_case d c s a b (rsplit_once d s) refl (λ x y e. some-rsplit_once d s x y e) h
