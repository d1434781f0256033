-- ===== src/Text/Codes.antt =====
-- Texts as lists of code points, and their equality and membership tests.
use openwrt_grafana_monitor.Prelude.{
  ==_iff, Bool, List, Option, String, [], arith, false, if◌then◌else◌, none, refl, some, subst,
  true, ℕ, ◌&&◌, ◌==◌, ◌||◌, ◌↔◌, ◌∷◌, ◌≡◌,
}
use Prim.Native.Char.{code}

abbrev pub Text : Type 0
Text = List ℕ

-- A literal of the source.
unfoldable pub codes : String → Text
codes String.[] = []
codes (String.◌∷◌ c s) = code c ∷ codes s

-- `s == t`
unfoldable pub text_eq : Text → Text → Bool
text_eq [] [] = true
text_eq (a ∷ s) (b ∷ t) = a == b && text_eq s t
text_eq _ _ = false

pub text_eq→eq : (s t : Text) → text_eq s t ≡ true → s ≡ t
unfolding text_eq
text_eq→eq [] [] h = refl
text_eq→eq (a ∷ s) (b ∷ t) h = ground (arith, text_eq→eq s t, ==_iff a b)
text_eq→eq s t h = ground arith

pub text_eq_refl : (s : Text) → text_eq s s ≡ true
unfolding text_eq
text_eq_refl [] = refl
text_eq_refl (a ∷ s) = ground (arith, text_eq_refl s)

pub text_eq-sym : (s t : Text) → text_eq s t ≡ true → text_eq t s ≡ true
text_eq-sym s t h = subst (λ u. text_eq u s ≡ true) (text_eq→eq s t h) (text_eq_refl s)

pub text_eq_iff : (s t : Text) → (text_eq s t ≡ true) ↔ (s ≡ t)
text_eq_iff s t = (text_eq→eq s t, λ e. ground (arith, text_eq_refl s, e))

-- `s in (…)` for a set, tuple or list of texts.
unfoldable pub elem : Text → List Text → Bool
unfolding text_eq
elem s [] = false
elem s (t ∷ ts) = text_eq s t || elem s ts

-- `d.get(k)` for a dictionary as an association list, oldest entry first.
unfoldable pub lookup {ℓ} : {V : Type ℓ} → Text → List (Text × V) → Option V
unfolding text_eq
lookup k [] = none
lookup k ((j, v) ∷ d) = if text_eq j k then some v else lookup k d
