-- ===== src/Policy/Redaction.antt =====
-- What is left of a secret in an output that `redact` and `truncate_output` have been through.
use openwrt_grafana_monitor.Prelude.{
  Bool, Bool-cases, List, [], append_assoc, arith, false, inl, inr, leb, length, negsuc, pos, refl,
  suc, take, true, zero, ℕ, ℤ, ◌++◌, ◌-◌, ◌∷◌, ◌≡◌,
}
use openwrt_grafana_monitor.Text.{Text, codes, contains, has_char, replace_from, starts_with}
use openwrt_grafana_monitor.Policy.Output.{
  redact, redact_one, redaction_mark, truncate_output, truncation_mark,
}
use openwrt_grafana_monitor.Policy.Result.{ok}

-- A text that holds a character `d` between `s` and `t` is searched piece by piece for a text
-- that has no `d`.
starts_with-cut :
    (d : ℕ) (p s t : Text) → has_char d p ≡ false → starts_with p (s ++ d ∷ t) ≡ starts_with p s
unfolding has_char starts_with
starts_with-cut d [] s t h = refl
starts_with-cut d (x ∷ p) [] t h = ground arith
starts_with-cut d (x ∷ p) (c ∷ s) t h = ground (arith, starts_with-cut d p s t)

contains-cut :
    (d x : ℕ) (p s t : Text)
    → has_char d (x ∷ p) ≡ false
    → contains (x ∷ p) s ≡ false
    → contains (x ∷ p) t ≡ false
    → contains (x ∷ p) (s ++ d ∷ t) ≡ false
unfolding contains
contains-cut d x p [] t h k l = ground (arith, starts_with-cut d (x ∷ p) [] t h)
contains-cut d x p (c ∷ s) t h k l =
    ground (arith, starts_with-cut d (x ∷ p) (c ∷ s) t h, contains-cut d x p s t h)

-- The mark is an opening bracket, `inner`, and a closing bracket.
abbrev inner : Text
inner = codes "redacted"

abbrev truncated_tail : Text
truncated_tail = codes "[truncated]"

abbrev bracketed : Text → Text
bracketed s = b'[' ∷ (s ++ b']' ∷ [])

-- One step of a replacement.
replace_from-match :
    (old new : Text) (c : ℕ) (s : Text)
    → starts_with old (c ∷ s) ≡ true
    → replace_from old new 0 (c ∷ s) ≡ new ++ replace_from old new (length old - 1) s
unfolding replace_from
replace_from-match old new c s e = ground arith

replace_from-skip :
    (old new : Text) (c : ℕ) (s : Text)
    → starts_with old (c ∷ s) ≡ false
    → replace_from old new 0 (c ∷ s) ≡ c ∷ replace_from old new 0 s
unfolding replace_from
replace_from-skip old new c s e = ground arith

-- Where a replaced text begins with `r`, which has no bracket, the text itself does.
starts_with-replace_from :
    (old m r t : Text)
    → has_char b'[' r ≡ false
    → starts_with r (replace_from old (bracketed m) 0 t) ≡ true
    → starts_with r t ≡ true
unfolding has_char starts_with replace_from
starts_with-replace_from old m [] t h k = refl
starts_with-replace_from old m (x ∷ r) [] h k = k
starts_with-replace_from old m (x ∷ r) (c ∷ t) h k =
    ground (arith, starts_with-replace_from old m r t)

module _ (x : ℕ) (p m : Text) (no_open : has_char b'[' (x ∷ p) ≡ false)
    (no_close : has_char b']' (x ∷ p) ≡ false) (outside : contains (x ∷ p) m ≡ false) where
  mark_clean :
      (rest : Text) → contains (x ∷ p) rest ≡ false → contains (x ∷ p) (bracketed m ++ rest) ≡ false
  unfolding contains has_char
  mark_clean rest h = ground (arith, append_assoc m (b']' ∷ []) rest, contains-cut b']' x p m rest)

  -- One more character in front, where the text does not begin there.
  front_clean :
      (old : Text) (c : ℕ) (s : Text)
      → starts_with (x ∷ p) (c ∷ s) ≡ false
      → contains (x ∷ p) (replace_from old (bracketed m) 0 s) ≡ false
      → contains (x ∷ p) (c ∷ replace_from old (bracketed m) 0 s) ≡ false
  unfolding contains has_char starts_with
  front_clean old c s e h = ground (arith, starts_with-replace_from old m p s)

  -- A replacement brings no new occurrence.
  replace_from-keeps :
      (old : Text) (k : ℕ) (s : Text)
      → contains (x ∷ p) s ≡ false
      → contains (x ∷ p) (replace_from old (bracketed m) k s) ≡ false
  unfolding contains replace_from
  replace_from-keeps old k [] h = h
  replace_from-keeps old (suc k) (c ∷ s) h = replace_from-keeps old k s (ground arith)
  replace_from-keeps old zero (c ∷ s) h = elim (Bool-cases (starts_with old (c ∷ s))) [
    | inl e ↦
        rw (replace_from-match old (bracketed m) c s e)
          (mark_clean _ (replace_from-keeps old (length old - 1) s (ground arith)))
    | inr e ↦
        rw (replace_from-skip old (bracketed m) c s e)
          (front_clean old c s (ground arith) (replace_from-keeps old 0 s (ground arith)))
  ]

  -- And it removes every occurrence.
  replace_from-clean :
      (k : ℕ) (s : Text) → contains (x ∷ p) (replace_from (x ∷ p) (bracketed m) k s) ≡ false
  unfolding contains replace_from
  replace_from-clean k [] = refl
  replace_from-clean (suc k) (c ∷ s) = replace_from-clean k s
  replace_from-clean zero (c ∷ s) = elim (Bool-cases (starts_with (x ∷ p) (c ∷ s))) [
    | inl e ↦
        rw (replace_from-match (x ∷ p) (bracketed m) c s e) (mark_clean _ (replace_from-clean _ s))
    | inr e ↦
        rw (replace_from-skip (x ∷ p) (bracketed m) c s e)
          (front_clean (x ∷ p) c s e (replace_from-clean 0 s))
  ]

-- A secret that `redact` acts on, and that has nothing in common with the marks it is given up
-- for: four characters or more, no bracket, no line break, no part of the words in the marks.
pub record IsOpaque (p : Text) : Type 0 where
  pub long : leb 4 (length p) ≡ true
  pub no_open : has_char b'[' p ≡ false
  pub no_close : has_char b']' p ≡ false
  pub no_line : has_char 10 p ≡ false
  pub outside : contains p inner ≡ false
  pub not_truncated : contains p truncated_tail ≡ false

mark_codes : redaction_mark ≡ bracketed inner
unfolding codes
mark_codes = refl

redact_one-keeps :
    (p old value : Text)
    → IsOpaque p
    → contains p value ≡ false
    → contains p (redact_one old value) ≡ false
unfolding redact_one
redact_one-keeps [] old value o h = cc o.long
redact_one-keeps (x ∷ p) old value o h = elim (Bool-cases (leb 4 (length old))) [
  | inl e ↦
      rw (e, mark_codes) (replace_from-keeps x p inner o.no_open o.no_close o.outside old 0 value h)
  | inr e ↦ rw e h
]

redact_one-clean : (p value : Text) → IsOpaque p → contains p (redact_one p value) ≡ false
unfolding redact_one
redact_one-clean [] value o = cc o.long
redact_one-clean (x ∷ p) value o =
    rw (o.long, mark_codes) (replace_from-clean x p inner o.no_open o.no_close o.outside 0 value)

redact-keeps :
    (p : Text) (secrets : List Text) (value : Text)
    → IsOpaque p
    → contains p value ≡ false
    → contains p (redact value secrets) ≡ false
unfolding redact
redact-keeps p [] value o h = h
redact-keeps p (old ∷ secrets) value o h =
    redact-keeps p secrets (redact_one old value) o (redact_one-keeps p old value o h)

-- Wherever an opaque secret stands among the secrets, and whatever the others are, the redacted
-- output does not contain it.
pub redact-clean :
    (p : Text) (before after : List Text) (value : Text)
    → IsOpaque p
    → contains p (redact value (before ++ p ∷ after)) ≡ false
unfolding redact
redact-clean p [] after value o =
    redact-keeps p after (redact_one p value) o (redact_one-clean p value o)
redact-clean p (old ∷ before) after value o = redact-clean p before after (redact_one old value) o

starts_with-take :
    (p : Text) (n : ℕ) (s : Text) → starts_with p s ≡ false → starts_with p (take n s) ≡ false
unfolding starts_with
starts_with-take [] n s h = h
starts_with-take (x ∷ p) zero s h = refl
starts_with-take (x ∷ p) (suc n) [] h = refl
starts_with-take (x ∷ p) (suc n) (c ∷ s) h = ground (arith, starts_with-take p n s)

contains-take :
    (x : ℕ) (p : Text) (n : ℕ) (s : Text)
    → contains (x ∷ p) s ≡ false
    → contains (x ∷ p) (take n s) ≡ false
unfolding contains
contains-take x p zero s h = refl
contains-take x p (suc n) [] h = refl
contains-take x p (suc n) (c ∷ s) h =
    ground (arith, starts_with-take (x ∷ p) (suc n) (c ∷ s), contains-take x p n s)

truncation_codes : truncation_mark ≡ 10 ∷ truncated_tail
unfolding codes
truncation_codes = refl

cut_clean :
    (x : ℕ) (p : Text) (n : ℕ) (value : Text)
    → IsOpaque (x ∷ p)
    → contains (x ∷ p) value ≡ false
    → contains (x ∷ p) (take n value ++ truncation_mark) ≡ false
cut_clean x p n value o h = rw truncation_codes (
    contains-cut 10 x p (take n value) truncated_tail o.no_line (contains-take x p n value h)
      o.not_truncated)

-- Cutting an output that holds no opaque secret, with the mark that the cut adds, does not make
-- one appear.
pub truncate_output-clean :
    (p value out : Text) (limit : ℤ) (cut : Bool)
    → IsOpaque p
    → contains p value ≡ false
    → truncate_output value limit ≡ ok (out, cut)
    → contains p out ≡ false
unfolding truncate_output
truncate_output-clean [] value out limit cut o h e = cc o.long
truncate_output-clean (x ∷ p) value out (negsuc n) cut o h e = cc
truncate_output-clean (x ∷ p) value out (pos n) cut o h e =
    ground (arith, cut_clean x p n value o h)
