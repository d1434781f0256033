-- ===== src/Policy/Address.antt =====
-- `ipaddress.ip_address`, which `validate_host` of mcp_server/core.py calls, as far as it decides
-- whether a text is an address.
use openwrt_grafana_monitor.Prelude.{
  Bool, List, Option, [], all, false, if◌then◌else◌, is_empty, leb, length, map, none, not, some, ℕ,
  ◌&&◌, ◌+◌, ◌-◌, ◌==◌, ◌||◌, ◌∷◌,
}
use openwrt_grafana_monitor.Text.{Text, has_char, is_digit, split, split_once, value_of}

-- One of the four numbers of an IPv4 address: one to three ASCII digits, no leading zero, a byte.
abbrev leads_with_zero : Text → Bool
leads_with_zero [] = false
leads_with_zero (c ∷ []) = false
leads_with_zero (c ∷ d ∷ s) = c == b'0'

unfoldable pub is_octet : Text → Bool
unfolding all is_digit value_of
is_octet s =
    not (is_empty s)
    && all is_digit s
    && leb (length s) 3
    && not (leads_with_zero s)
    && leb (value_of 0 (map (λ c. c - 48) s)) 255

unfoldable pub is_ipv4 : Text → Bool
unfolding split is_octet all has_char
is_ipv4 s = not (has_char b'/' s) && length (split b'.' s) == 4 && all is_octet (split b'.' s)

unfoldable pub is_hex : ℕ → Bool
unfolding is_digit
is_hex c = is_digit c || leb b'a' c && leb c b'f' || leb b'A' c && leb c b'F'

unfoldable pub is_hextet : Text → Bool
unfolding all is_hex
is_hextet s = not (is_empty s) && all is_hex s && leb (length s) 4

-- A dotted last part stands for two groups. What they are does not matter here, so both become
-- "0"; `none` where the part is no IPv4 address.
unfoldable pub expand_last : List Text → Option (List Text)
unfolding is_ipv4 has_char
expand_last [] = some []
expand_last (p ∷ []) =
    if has_char b'.' p
    then (if is_ipv4 p then some ((b'0' ∷ []) ∷ (b'0' ∷ []) ∷ []) else none)
    else some (p ∷ [])
expand_last (p ∷ q ∷ ps) = elim (expand_last (q ∷ ps)) [ none ↦ none | some r ↦ some (p ∷ r) ]

-- The parts before and after the first empty part that is neither the first nor the last one.
-- Called on what follows the first part.
unfoldable pub split_skip : List Text → Option (List Text × List Text)
split_skip [] = none
split_skip (p ∷ []) = none
split_skip (p ∷ q ∷ ps) =
    let found = split_skip (q ∷ ps) in
    if is_empty p
    then some ([], q ∷ ps)
    else elim found [ none ↦ none | some (hi, lo) ↦ some (p ∷ hi, lo) ]

-- All parts but the last.
abbrev initial : List Text → List Text
initial [] = []
initial (p ∷ []) = []
initial (p ∷ q ∷ ps) = p ∷ initial (q ∷ ps)

-- The groups below "::": a last part that is empty must be the only one.
abbrev low_groups : List Text → Option (List Text)
low_groups [] = some []
low_groups (p ∷ []) = if is_empty p then some [] else some (p ∷ [])
low_groups (p ∷ ps) = some (p ∷ ps)

-- The groups above "::": a first part that is empty must be the only one.
abbrev high_groups : Text → List Text → Option (List Text)
high_groups p [] = if is_empty p then some [] else some (p ∷ [])
high_groups p (q ∷ ps) = if is_empty p then none else some (p ∷ q ∷ ps)

abbrev groups_ok : Option (List Text) → Option (List Text) → Bool
groups_ok none lo = false
groups_ok (some hi) none = false
groups_ok (some hi) (some lo) =
    leb (length hi + length lo) 7 && all is_hextet hi && all is_hextet lo

-- With one "::", or with all eight groups written.
unfoldable pub parts_ok : List Text → Bool
unfolding split_skip all is_hextet
parts_ok [] = false
parts_ok (p ∷ ps) = elim (split_skip ps) [
  | none ↦ length (p ∷ ps) == 8 && all is_hextet (p ∷ ps)
  | some (hi, lo) ↦ groups_ok (high_groups p hi) (low_groups lo)
]

unfoldable pub is_ipv6_groups : Text → Bool
unfolding split expand_last parts_ok
is_ipv6_groups s =
    let parts = split b':' s in
    leb 3 (length parts) && elim (expand_last parts) [
      | none ↦ false
      | some groups ↦ leb (length groups) 9 && parts_ok groups
    ]

-- A scope, `%` and a name, may follow.
unfoldable pub is_ipv6 : Text → Bool
unfolding is_ipv6_groups has_char split_once
is_ipv6 s = not (has_char b'/' s) && elim (split_once b'%' s) [
  | none ↦ is_ipv6_groups s
  | some (addr, scope) ↦ not (is_empty scope) && not (has_char b'%' scope) && is_ipv6_groups addr
]

unfoldable pub is_ip_address : Text → Bool
unfolding is_ipv4 is_ipv6
is_ip_address s = is_ipv4 s || is_ipv6 s
