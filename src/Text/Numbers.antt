-- ===== src/Text/Numbers.antt =====
-- Decimal numbers: `str(n)`, `int(text)` and `str.isdigit`.
use openwrt_grafana_monitor.Prelude.{
  Bool, List, Option, [], all, false, if◌then◌else◌, is_empty, leb, length, ltb, negsuc, none, not,
  pos, some, suc, true, zero, ℕ, ℤ, ◌%◌, ◌&&◌, ◌*◌, ◌++◌, ◌+◌, ◌-◌, ◌/◌, ◌==◌, ◌||◌, ◌∷◌,
}
use openwrt_grafana_monitor.Text.Codes.{Text}
use openwrt_grafana_monitor.Text.Classes.{is_space}

-- The zeros of the runs of ten decimal digits, Unicode's category Nd, in version 15.1.
abbrev nd_zeros : List ℕ
nd_zeros =
    0x30 ∷ 0x660 ∷ 0x6f0 ∷ 0x7c0 ∷ 0x966 ∷ 0x9e6 ∷ 0xa66 ∷ 0xae6 ∷ 0xb66 ∷ 0xbe6 ∷ 0xc66 ∷ 0xce6
    ∷ 0xd66 ∷ 0xde6 ∷ 0xe50 ∷ 0xed0 ∷ 0xf20 ∷ 0x1040 ∷ 0x1090 ∷ 0x17e0 ∷ 0x1810 ∷ 0x1946 ∷ 0x19d0
    ∷ 0x1a80 ∷ 0x1a90 ∷ 0x1b50 ∷ 0x1bb0 ∷ 0x1c40 ∷ 0x1c50 ∷ 0xa620 ∷ 0xa8d0 ∷ 0xa900 ∷ 0xa9d0
    ∷ 0xa9f0 ∷ 0xaa50 ∷ 0xabf0 ∷ 0xff10 ∷ 0x104a0 ∷ 0x10d30 ∷ 0x11066 ∷ 0x110f0 ∷ 0x11136 ∷ 0x111d0
    ∷ 0x112f0 ∷ 0x11450 ∷ 0x114d0 ∷ 0x11650 ∷ 0x116c0 ∷ 0x11730 ∷ 0x118e0 ∷ 0x11950 ∷ 0x11c50
    ∷ 0x11d50 ∷ 0x11da0 ∷ 0x11f50 ∷ 0x16a60 ∷ 0x16ac0 ∷ 0x16b50 ∷ 0x1d7ce ∷ 0x1d7d8 ∷ 0x1d7e2
    ∷ 0x1d7ec ∷ 0x1d7f6 ∷ 0x1e140 ∷ 0x1e2f0 ∷ 0x1e4f0 ∷ 0x1e950 ∷ 0x1fbf0 ∷ []

unfoldable pub digit_in : List ℕ → ℕ → Option ℕ
digit_in [] c = none
digit_in (z ∷ zs) c = if leb z c && leb c (z + 9) then some (c - z) else digit_in zs c

unfoldable pub digit_value : ℕ → Option ℕ
unfolding digit_in
digit_value c = digit_in nd_zeros c

-- The digits of `str.isdigit` that are no decimal digits: superscripts, circled digits and such.
abbrev other_digits : List (ℕ × ℕ)
other_digits =
    (0xb2, 0xb3)
    ∷ (0xb9, 0xb9)
    ∷ (0x1369, 0x1371)
    ∷ (0x19da, 0x19da)
    ∷ (0x2070, 0x2070)
    ∷ (0x2074, 0x2079)
    ∷ (0x2080, 0x2089)
    ∷ (0x2460, 0x2468)
    ∷ (0x2474, 0x247c)
    ∷ (0x2488, 0x2490)
    ∷ (0x24ea, 0x24ea)
    ∷ (0x24f5, 0x24fd)
    ∷ (0x24ff, 0x24ff)
    ∷ (0x2776, 0x277e)
    ∷ (0x2780, 0x2788)
    ∷ (0x278a, 0x2792)
    ∷ (0x10a40, 0x10a43)
    ∷ (0x10e60, 0x10e68)
    ∷ (0x11052, 0x1105a)
    ∷ (0x1f100, 0x1f10a)
    ∷ []

unfoldable pub in_ranges : List (ℕ × ℕ) → ℕ → Bool
in_ranges [] c = false
in_ranges ((a, b) ∷ rs) c = leb a c && leb c b || in_ranges rs c

abbrev is_some : Option ℕ → Bool
is_some none = false
is_some (some d) = true

-- `s.isdigit()`
unfoldable pub isdigit : Text → Bool
unfolding digit_value in_ranges all
isdigit s = not (is_empty s) && all (λ c. is_some (digit_value c) || in_ranges other_digits c) s

-- The digits of an integer literal, most significant first: single underscores may stand between
-- them. The first argument says whether a digit stands just before.
abbrev cons_digit : ℕ → Option (List ℕ) → Option (List ℕ)
cons_digit d none = none
cons_digit d (some ds) = some (d ∷ ds)

unfoldable pub literal_digits : Bool → Text → Option (List ℕ)
unfolding digit_value
literal_digits true [] = some []
literal_digits false [] = none
literal_digits after (c ∷ s) =
    let more = literal_digits true s in
    let skip = literal_digits false s in
    elim (digit_value c) [
      | some d ↦ cons_digit d more
      | none ↦ if c == b'_' && after then skip else none
    ]

unfoldable pub value_of : ℕ → List ℕ → ℕ
value_of acc [] = acc
value_of acc (d ∷ ds) = value_of (acc * 10 + d) ds

-- CPython refuses a decimal literal of more than 4300 digits.
abbrev max_str_digits : ℕ
max_str_digits = 4300

abbrev bounded : Option (List ℕ) → Option ℕ
bounded none = none
bounded (some ds) = if ltb max_str_digits (length ds) then none else some (value_of 0 ds)

unfoldable pub parse_digits : Text → Option ℕ
unfolding literal_digits value_of
parse_digits s = bounded (literal_digits false s)

abbrev signed : Bool → Option ℕ → Option ℤ
signed minus none = none
signed false (some n) = some (pos n)
signed true (some zero) = some (pos zero)
signed true (some (suc n)) = some (negsuc n)

unfoldable pub parse_signed : Text → Option ℤ
unfolding parse_digits
parse_signed [] = none
parse_signed (c ∷ s) =
    if c == b'-'
    then signed true (parse_digits s)
    else if c == b'+'
    then signed false (parse_digits s)
    else signed false (parse_digits (c ∷ s))

-- The blanks that `int` passes over on both sides: the separators U+001C to U+001F are none of them.
abbrev is_int_space : ℕ → Bool
is_int_space c = is_space c && not (leb 28 c && leb c 31)

unfoldable pub int_lstrip : Text → Text
unfolding is_space
int_lstrip [] = []
int_lstrip (c ∷ s) = if is_int_space c then int_lstrip s else c ∷ s

abbrev int_strip_back : ℕ → Text → Text
int_strip_back c [] = if is_int_space c then [] else c ∷ []
int_strip_back c (d ∷ t) = c ∷ d ∷ t

unfoldable pub int_rstrip : Text → Text
unfolding is_space
int_rstrip [] = []
int_rstrip (c ∷ s) = int_strip_back c (int_rstrip s)

-- `int(s)`; `none` is the `ValueError`
unfoldable pub parse_int : Text → Option ℤ
unfolding parse_signed int_lstrip int_rstrip
parse_int s = parse_signed (int_rstrip (int_lstrip s))

-- `str(n)` of a natural number. The fuel `n + 1` is enough: each round divides by ten.
unfoldable pub show_from : ℕ → ℕ → Text
show_from zero n = []
show_from (suc fuel) n =
    let rest = show_from fuel (n / 10) in
    if ltb n 10 then (48 + n) ∷ [] else rest ++ ((48 + n % 10) ∷ [])

unfoldable pub show_ℕ : ℕ → Text
unfolding show_from
show_ℕ n = show_from (suc n) n

unfoldable pub show_ℤ : ℤ → Text
unfolding show_ℕ
show_ℤ (pos n) = show_ℕ n
show_ℤ (negsuc n) = b'-' ∷ show_ℕ (suc n)
