-- ===== src/Oui/Lookup/Search.antt =====
-- The binary search of openwrt/lua/oui.lua: it ends, within as many rounds as the number of records
-- has binary digits, and it finds the record of the prefix where there is one.
use openwrt_grafana_monitor.Prelude.{
  Bool-cases, Option, ap, arith, false, inl, inr, length, subst, suc, sym, true, zero, ℕ, ◌*◌, ◌+◌,
  ◌-◌, ◌/◌, ◌<◌, ◌∙◌, ◌≡◌, ◌≢◌, ◌≤◌, ◌⊎◌,
}
use openwrt_grafana_monitor.Text.{Text, text_eq, text_eq→eq}
use openwrt_grafana_monitor.Oui.Build.{record_len, text_lt}
use openwrt_grafana_monitor.Oui.Lookup.{
  Found, absent, exhausted, found, key_at, probe, search, search_loop, slot_at, text_lt, tonumber36,
}
use native.Mathlib.Decide.{dec_lt}
use openwrt_grafana_monitor.Oui.Order.{text_lt_irrefl, text_lt_total, text_lt_trans}

-- `2 ** k`
unfoldable pub pow2 : ℕ → ℕ
pow2 zero = 1
pow2 (suc k) = 2 * pow2 k

pow2-lt : (n : ℕ) → n < pow2 n
unfolding pow2
pow2-lt zero = omega arith
pow2-lt (suc n) = omega (arith, pow2-lt n)

-- The middle of `low` and `high`.
abbrev mid : ℕ → ℕ → ℕ
mid low top = (low + (top - 1)) / 2

places : (i m : ℕ) → (i < m) ⊎ (m ≡ i) ⊎ (m < i)
places i m = ground arith

lt-differ : (s t : Text) → text_lt s t ≡ true → s ≡ t → ⊥
lt-differ s t l e = ground (arith, subst (λ u. text_lt s u ≡ true) (sym e) l, text_lt_irrefl s)

found-absent : {f : Found} → f ≡ absent → f ≢ exhausted
found-absent h k = cc

found-slot : {f : Found} {n : Option ℕ} → f ≡ found n → f ≢ exhausted
found-slot h k = cc

module _ (index prefix : Text) where
  round_equal :
      (fuel low top : ℕ)
      → low < top
      → text_eq (key_at index prefix (mid low top)) prefix ≡ true
      → search_loop index prefix (suc fuel) low top
        ≡ found (tonumber36 (slot_at index prefix (mid low top)))
  unfolding search_loop probe
  round_equal fuel low top h e = ground arith

  round_smaller :
      (fuel low top : ℕ)
      → low < top
      → text_eq (key_at index prefix (mid low top)) prefix ≡ false
      → text_lt (key_at index prefix (mid low top)) prefix ≡ true
      → search_loop index prefix (suc fuel) low top
        ≡ search_loop index prefix fuel (mid low top + 1) top
  unfolding search_loop probe
  round_smaller fuel low top h e l = ground arith

  round_larger :
      (fuel low top : ℕ)
      → low < top
      → text_eq (key_at index prefix (mid low top)) prefix ≡ false
      → text_lt (key_at index prefix (mid low top)) prefix ≡ false
      → search_loop index prefix (suc fuel) low top
        ≡ search_loop index prefix fuel low (mid low top)
  unfolding search_loop probe
  round_larger fuel low top h e l = ground arith

  round_crossed :
      (fuel low top : ℕ) → top ≤ low → search_loop index prefix (suc fuel) low top ≡ absent
  unfolding search_loop probe
  round_crossed fuel low top h = ground arith

  -- The keys stand in ascending order.
  abbrev pub IsAscending : ℕ → Type 0
  IsAscending count =
      (i j : ℕ) → i < j → j < count → text_lt (key_at index prefix i) (key_at index prefix j) ≡ true

  module _ (count : ℕ) (ascending : IsAscending count) where
    -- Two keys in the index are the same only at the same place.
    same_place :
        (i m : ℕ) → i < count → m < count → key_at index prefix i ≡ key_at index prefix m → m ≡ i
    same_place i m hi hm e = elim (places i m) [
      | inl l ↦ absurd (lt-differ _ _ (ascending i m l hm) e)
      | inr (inl s) ↦ s
      | inr (inr g) ↦ absurd (lt-differ _ _ (ascending m i g hi) (sym e))
    ]

    -- A place whose key is below the prefix stands before the place of the prefix.
    before_place :
        (i m : ℕ)
        → i < count
        → m < count
        → key_at index prefix i ≡ prefix
        → text_lt (key_at index prefix m) prefix ≡ true
        → m < i
    before_place i m hi hm e l = elim (places i m) [
      | inl g ↦ absurd (lt-differ _ _ (text_lt_trans _ _ prefix (ascending i m g hm) l) e)
      | inr (inl s) ↦ absurd (lt-differ _ _ l (ap (key_at index prefix) s ∙ e))
      | inr (inr g) ↦ g
    ]

    after_place :
        (i m : ℕ)
        → i < count
        → m < count
        → key_at index prefix i ≡ prefix
        → text_eq (key_at index prefix m) prefix ≡ false
        → text_lt (key_at index prefix m) prefix ≡ false
        → i < m
    after_place i m hi hm e n l =
        let more = text_lt_total (key_at index prefix m) prefix n l in
        elim (places i m) [
          | inl g ↦ g
          | inr (inl s) ↦ absurd (lt-differ _ _ more (sym (ap (key_at index prefix) s ∙ e)))
          | inr (inr g) ↦
              absurd (lt-differ _ _ (text_lt_trans prefix _ _ more (ascending m i g hi)) (sym e))
        ]

    search_loop-found :
        (fuel low top i : ℕ)
        → top - low < pow2 fuel
        → low ≤ i
        → i < top
        → top ≤ count
        → key_at index prefix i ≡ prefix
        → search_loop index prefix fuel low top ≡ found (tonumber36 (slot_at index prefix i))
    unfolding pow2
    search_loop-found zero low top i f l h b e = absurd (omega arith)
    search_loop-found (suc fuel) low top i f l h b e =
        elim (Bool-cases (text_eq (key_at index prefix (mid low top)) prefix)) [
          | inl q ↦
              let here =
                same_place i (mid low top) (omega arith) (omega arith)
                  (e ∙ sym (text_eq→eq (key_at index prefix (mid low top)) prefix q)) in
              round_equal fuel low top (omega arith) q
              ∙ ap (λ j. found (tonumber36 (slot_at index prefix j))) here
          | inr q ↦ elim (Bool-cases (text_lt (key_at index prefix (mid low top)) prefix)) [
            | inl s ↦
                let later = before_place i (mid low top) (omega arith) (omega arith) e s in
                round_smaller fuel low top (omega arith) q s
                ∙ search_loop-found fuel (mid low top + 1) top i (omega arith) (omega arith) h b e
            | inr s ↦
                let earlier = after_place i (mid low top) (omega arith) (omega arith) e q s in
                round_larger fuel low top (omega arith) q s
                ∙ search_loop-found fuel low (mid low top) i (omega arith) l (omega arith)
                    (omega arith) e
          ]
        ]

  search_loop-absent :
      (fuel low top : ℕ)
      → top - low < pow2 fuel
      → ((i : ℕ) → i < top → text_eq (key_at index prefix i) prefix ≡ false)
      → search_loop index prefix (suc fuel) low top ≡ absent
  unfolding pow2
  search_loop-absent zero low top f none_is = round_crossed zero low top (omega arith)
  search_loop-absent (suc fuel) low top f none_is = elim (dec_lt low top) [
    | yes h ↦ elim (Bool-cases (text_lt (key_at index prefix (mid low top)) prefix)) [
      | inl s ↦
          round_smaller (suc fuel) low top h (none_is (mid low top) (omega arith)) s
          ∙ search_loop-absent fuel (mid low top + 1) top (omega arith) none_is
      | inr s ↦
          round_larger (suc fuel) low top h (none_is (mid low top) (omega arith)) s
          ∙ search_loop-absent fuel low (mid low top) (omega arith) (λ i b. none_is i (omega arith))
    ]
    | no h ↦ round_crossed (suc fuel) low top (omega arith)
  ]

  abbrev record_count : ℕ
  record_count = length index / record_len

  -- In an index whose keys ascend, the search ends with the slot of the record that has the prefix
  -- for its key.
  pub search-found :
      (i : ℕ)
      → IsAscending record_count
      → i < record_count
      → key_at index prefix i ≡ prefix
      → search index prefix ≡ found (tonumber36 (slot_at index prefix i))
  unfolding search
  search-found i a h e =
      search_loop-found record_count a (record_count + 1) 0 record_count i
        (omega (arith, pow2-lt (record_count + 1))) (omega arith) h (omega arith) e

  pub search-absent :
      ((i : ℕ) → i < record_count → text_eq (key_at index prefix i) prefix ≡ false)
      → search index prefix ≡ absent
  unfolding search
  search-absent none_is =
      let rounds : record_count + 1 ≡ suc record_count = omega arith in
      rw rounds (
        search_loop-absent record_count 0 record_count (omega (arith, pow2-lt record_count))
          none_is)

  -- The search ends within as many rounds as the number of records has binary digits, and one more,
  -- in an index of any contents.
  pub search_loop-ends :
      (fuel low top : ℕ)
      → top - low < pow2 fuel
      → search_loop index prefix (suc fuel) low top ≢ exhausted
  unfolding pow2
  search_loop-ends zero low top f h = found-absent (round_crossed zero low top (omega arith)) h
  search_loop-ends (suc fuel) low top f h = elim (dec_lt low top) [
    | no c ↦ found-absent (round_crossed (suc fuel) low top (omega arith)) h
    | yes c ↦ elim (Bool-cases (text_eq (key_at index prefix (mid low top)) prefix)) [
      | inl q ↦ found-slot (round_equal (suc fuel) low top c q) h
      | inr q ↦ elim (Bool-cases (text_lt (key_at index prefix (mid low top)) prefix)) [
        | inl s ↦
            search_loop-ends fuel (mid low top + 1) top (omega arith)
              (sym (round_smaller (suc fuel) low top c q s) ∙ h)
        | inr s ↦
            search_loop-ends fuel low (mid low top) (omega arith)
              (sym (round_larger (suc fuel) low top c q s) ∙ h)
      ]
    ]
  ]
