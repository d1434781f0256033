-- ===== src/Oui/Lookup.antt =====
-- openwrt/lua/oui.lua: the router's lookup of a MAC address in the generated table. A Lua string is
-- a text of its bytes; strings are compared byte by byte, as in the C locale.
pub mod Search
pub mod Records
pub mod Vendor
pub mod Registry
use openwrt_grafana_monitor.Prelude.{
  Bool, List, Option, [], drop, false, if◌then◌else◌, keep, leb, length, ltb, none, not, some, suc,
  take, true, zero, ℕ, ◌%◌, ◌&&◌, ◌*◌, ◌+◌, ◌-◌, ◌/◌, ◌==◌, ◌||◌, ◌∷◌,
}
use openwrt_grafana_monitor.Text.{Text, codes, starts_with, text_eq}
use openwrt_grafana_monitor.Oui.Rules.{Rule}
use openwrt_grafana_monitor.Oui.Build.{Table, prefix_len, record_len, text_lt}

-- `s:sub(start + 1, start + count)`
abbrev pub slice : ℕ → ℕ → Text → Text
slice start count s = take count (drop start s)

-- `s:lower()`
unfoldable pub ascii_lower : Text → Text
ascii_lower [] = []
ascii_lower (c ∷ s) = (if leb 65 c && leb c 90 then c + 32 else c) ∷ ascii_lower s

-- A digit of `tonumber(s, 36)`.
unfoldable pub digit_of : ℕ → Option ℕ
digit_of c =
    if leb 48 c && leb c 57
    then some (c - 48)
    else if leb 97 c && leb c 122
    then some (c - 87)
    else if leb 65 c && leb c 90
    then some (c - 55)
    else none

abbrev pub next_digit : ℕ → Option ℕ → (ℕ → Option ℕ) → Option ℕ
next_digit n none rest = none
next_digit n (some d) rest = rest (36 * n + d)

unfoldable pub tonumber36_from : ℕ → Text → Option ℕ
unfolding digit_of
tonumber36_from n [] = some n
tonumber36_from n (c ∷ s) = next_digit n (digit_of c) (λ m. tonumber36_from m s)

-- `tonumber(s, 36)`, for a text without blanks or sign
unfoldable pub tonumber36 : Text → Option ℕ
unfolding tonumber36_from
tonumber36 [] = none
tonumber36 (c ∷ s) = tonumber36_from 0 (c ∷ s)

-- What a round of the loop finds: `low > high`, or how the key in the middle stands to the prefix.
pub data Probe : Type 0 where
  crossed equal smaller larger : Probe

-- What the search ends with; `exhausted` is no result of the source, it is the fuel running out.
pub data Found : Type 0 where
  found : Option ℕ → Found
  absent exhausted : Found

module _ (index prefix : Text) where
  abbrev pub key_at : ℕ → Text
  key_at mid = slice (mid * record_len) prefix_len index

  abbrev pub slot_at : ℕ → Text
  slot_at mid = slice (mid * record_len + prefix_len) (record_len - prefix_len) index

  abbrev compare_key : Text → Probe
  compare_key key =
      if text_eq key prefix then equal else if text_lt key prefix then smaller else larger

  -- `top` is `high + 1`, since `high` starts at -1 for an empty index and falls to -1.
  unfoldable pub probe : ℕ → ℕ → Probe
  unfolding text_eq text_lt
  probe low top = if ltb low top then compare_key (key_at ((low + (top - 1)) / 2)) else crossed

  unfoldable pub search_loop : ℕ → ℕ → ℕ → Found
  unfolding probe tonumber36
  search_loop zero low top = exhausted
  search_loop (suc fuel) low top = elim (probe low top) [
    | crossed ↦ absent
    | equal ↦ found (tonumber36 (slot_at ((low + (top - 1)) / 2)))
    | smaller ↦ search_loop fuel ((low + (top - 1)) / 2 + 1) top
    | larger ↦ search_loop fuel low ((low + (top - 1)) / 2)
  ]

  -- `search`, on an index of whole records
  unfoldable pub search : Found
  unfolding search_loop
  search = search_loop (length index / record_len + 1) 0 (length index / record_len)

-- `hex_only`, on a string
abbrev is_hex_digit : ℕ → Bool
is_hex_digit c = leb 48 c && leb c 57 || leb 97 c && leb c 102

abbrev zero_address : Text
zero_address = codes "000000000000"

abbrev checked_hex : Text → Option Text
checked_hex hex =
    if not (length hex == 12) then none else if text_eq hex zero_address then none else some hex

unfoldable pub hex_only : Text → Option Text
unfolding ascii_lower keep text_eq
hex_only mac = checked_hex (keep is_hex_digit (ascii_lower mac))

-- The value of a digit of `tonumber(s, 16)`; the digits are checked already.
abbrev hex_value : ℕ → ℕ
hex_value c = if leb c 57 then c - 48 else c - 87

-- `is_local`, on twelve hex digits
unfoldable pub is_local : Text → Bool
is_local (a ∷ b ∷ hex) = leb 2 ((16 * hex_value a + hex_value b) % 4)
is_local hex = false

-- `vendors[n]`, from 1
unfoldable pub entry : ℕ → List Text → Option Text
entry n [] = none
entry zero (v ∷ vs) = none
entry (suc zero) (v ∷ vs) = some v
entry (suc (suc n)) (v ∷ vs) = entry (suc n) vs

-- `local_range`
unfoldable pub local_range : Text → List Rule → Option (Text × Text)
unfolding starts_with
local_range hex [] = none
local_range hex (r ∷ rs) =
    if starts_with r.pattern_text hex then some (r.display, r.icon) else local_range hex rs

-- The three results of `M.lookup`: vendor, icon, and whether the address is locally administered.
pub record Answer : Type 0 where
  pub vendor : Option Text
  pub icon : Option Text
  pub is_private : Bool

abbrev pub nothing : Bool → Answer
nothing bit = record { vendor = none; icon = none; is_private = bit }

abbrev of_range : Option (Text × Text) → Answer
of_range none = nothing true
of_range (some (name, icon)) = record { vendor = some name; icon = some icon; is_private = true }

-- `vendor_at`: the flat pairs of the rendered table are two lists here.
abbrev pub of_search : Table → Found → Answer
of_search table (found (some slot)) = record {
  vendor = entry slot table.vendors;
  icon = entry slot table.icons;
  is_private = false;
}
of_search table _ = nothing false

abbrev pub answer : Option (Table × List Rule) → Option Text → Answer
answer loaded none = nothing false
answer none (some hex) = nothing (is_local hex)
answer (some (table, ranges)) (some hex) =
    if is_local hex
    then of_range (local_range hex ranges)
    else of_search table (search table.index (slice 0 prefix_len hex))

-- `M.lookup`; the data are absent where the generated file could not be loaded.
unfoldable pub lookup_mac : Option (Table × List Rule) → Text → Answer
lookup_mac loaded mac = answer loaded (hex_only mac)
