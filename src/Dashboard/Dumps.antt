-- ===== src/Dashboard/Dumps.antt =====
-- `json.dumps` with its default arguments.
use openwrt_grafana_monitor.Prelude.{
  [], drop, false, if◌then◌else◌, leb, length, ltb, suc, take, true, zero, ℕ, ◌%◌, ◌&&◌, ◌++◌, ◌+◌,
  ◌-◌, ◌/◌, ◌==◌, ◌||◌, ◌∷◌,
}
use openwrt_grafana_monitor.Text.{Text, codes, show_ℕ, show_ℤ}
use openwrt_grafana_monitor.Oui.Build.{text_lt}
use openwrt_grafana_monitor.Dashboard.Json.{
  Fields, Items, Json, arr, bool, cons, decimal, end, field, int, nil, null, obj, str,
}

abbrev hex_digit : ℕ → ℕ
hex_digit n = if ltb n 10 then 48 + n else 87 + n

-- `\\uXXXX`
unfoldable pub unicode_escape : ℕ → Text
unicode_escape n =
    b'\\'
    ∷ b'u'
    ∷ hex_digit (n / 4096 % 16)
    ∷ hex_digit (n / 256 % 16)
    ∷ hex_digit (n / 16 % 16)
    ∷ hex_digit (n % 16)
    ∷ []

-- A character that is no printable ASCII character; above the first plane, two surrogates.
abbrev escape_other : ℕ → Text
escape_other c =
    if ltb c 0x10000
    then unicode_escape c
    else unicode_escape (0xd800 + (c - 0x10000) / 0x400)
      ++ unicode_escape (0xdc00 + (c - 0x10000) % 0x400)

abbrev escape_plain : ℕ → Text
escape_plain c = if leb 32 c && leb c 126 then c ∷ [] else escape_other c

unfoldable pub escape_char : ℕ → Text
unfolding unicode_escape
escape_char c =
    if c == b'"' || c == b'\\'
    then b'\\' ∷ c ∷ []
    else if c == 10
    then codes "\\n"
    else if c == 13
    then codes "\\r"
    else if c == 9
    then codes "\\t"
    else if c == 8
    then codes "\\b"
    else if c == 12
    then codes "\\f"
    else escape_plain c

unfoldable pub escape : Text → Text
unfolding escape_char
escape [] = []
escape (c ∷ s) = escape_char c ++ escape s

abbrev quoted : Text → Text
quoted s = b'"' ∷ (escape s ++ b'"' ∷ [])

abbrev zeros : ℕ → Text
zeros zero = []
zeros (suc n) = b'0' ∷ zeros n

abbrev with_fraction : Text → Text → Text
with_fraction whole [] = whole
with_fraction whole (c ∷ s) = whole ++ b'.' ∷ c ∷ s

abbrev two_digits : ℕ → Text
two_digits n = if ltb n 10 then b'0' ∷ show_ℕ n else show_ℕ n

-- `repr` of a float that is m / 10 ^ k, from its digits and how many there are: in scientific
-- notation below 0.0001.
unfoldable pub show_float : Text → ℕ → ℕ → Text
unfolding show_ℕ
show_float digits n k =
    if ltb k n
    then take (n - k) digits ++ b'.' ∷ drop (n - k) digits
    else if leb k (n + 3)
    then codes "0." ++ (zeros (k - n) ++ digits)
    else with_fraction (take 1 digits) (drop 1 digits) ++ (codes "e-" ++ two_digits (k + 1 - n))

unfoldable mutual
  unfolding escape show_float show_ℤ

  pub dumps : Json → Text
  dumps null = codes "null"
  dumps (bool true) = codes "true"
  dumps (bool false) = codes "false"
  dumps (int n) = show_ℤ n
  dumps (decimal m k) = show_float (show_ℕ m) (length (show_ℕ m)) k
  dumps (str s) = quoted s
  dumps (arr vs) = b'[' ∷ (dumps_items vs ++ b']' ∷ [])
  dumps (obj fs) = b'{' ∷ (dumps_fields fs ++ b'}' ∷ [])

  pub dumps_items : Items → Text
  dumps_items nil = []
  dumps_items (cons v nil) = dumps v
  dumps_items (cons v (cons w vs)) = dumps v ++ (codes ", " ++ dumps_items (cons w vs))

  pub dumps_fields : Fields → Text
  dumps_fields end = []
  dumps_fields (field k v end) = quoted k ++ (codes ": " ++ dumps v)
  dumps_fields (field k v (field j w fs)) =
      quoted k ++ (codes ": " ++ (dumps v ++ (codes ", " ++ dumps_fields (field j w fs))))

-- A field, in front of the first whose key is greater.
unfoldable pub insert_field : Text → Json → Fields → Fields
unfolding text_lt
insert_field k v end = field k v end
insert_field k v (field j w fs) =
    let rest = insert_field k v fs in
    if text_lt k j then field k v (field j w fs) else field j w rest

-- What `sort_keys=True` makes of a value before it is written.
unfoldable mutual
  unfolding insert_field

  pub sort_keys : Json → Json
  sort_keys (arr vs) = arr (sort_items vs)
  sort_keys (obj fs) = obj (sort_fields fs)
  sort_keys v = v

  pub sort_items : Items → Items
  sort_items nil = nil
  sort_items (cons v vs) = cons (sort_keys v) (sort_items vs)

  pub sort_fields : Fields → Fields
  sort_fields end = end
  sort_fields (field k v fs) = insert_field k (sort_keys v) (sort_fields fs)
