-- ===== src/Policy/Inventory.antt =====
-- The router inventory of mcp_server/core.py. A `dict[str, Router]` is an association list in the
pub mod Parsed
use openwrt_grafana_monitor.Prelude.{
  Bool, List, Option, [], false, if◌then◌else◌, is_empty, none, not, some, true, ℕ, ℤ, ◌++◌, ◌==◌,
  ◌∷◌,
}
use openwrt_grafana_monitor.Text.{
  Text, count_char, isdigit, lookup, parse_int, rsplit_once, split, split_once, strip,
}
use openwrt_grafana_monitor.Policy.Result.{
  Result, address_empty, entry_empty, entry_invalid, err, inventory_empty, name_duplicate,
  name_invalid, ok, policy, refuse_if, router_unknown, value_error, ◌>>=◌, ◌>>◌,
}
-- order of insertion.
use openwrt_grafana_monitor.Policy.Validate.{
  full_match, is_label_char, validate_host, validate_port,
}

pub record Router : Type 0 where
  pub name : Text
  pub host : Text
  pub port : ℕ

abbrev pub Inventory : Type 0
Inventory = List (Text × Router)

abbrev pub port_of_int : Option ℤ → Result ℕ
port_of_int none = err value_error
port_of_int (some n) = validate_port n

-- `address.rsplit(":", 1)`, where the part behind the colon is a number; `int` raises a
-- `ValueError` at digits that are not decimal ones.
abbrev pub split_port : Text → Option (Text × Text) → Result (Text × ℕ)
split_port address none = ok (address, 22)
split_port address (some (maybe_host, maybe_port)) =
    if isdigit maybe_port
    then (do port ← port_of_int (parse_int maybe_port); ok (maybe_host, port))
    else ok (address, 22)

-- `_parse_host_port`
unfoldable pub parse_host_port : Text → Result (Text × ℕ)
unfolding count_char rsplit_once isdigit parse_int validate_host validate_port
parse_host_port address = do
  refuse_if (is_empty address) address_empty
  found ←
      split_port address (if count_char b':' address == 1 then rsplit_once b':' address else none)
  host ← validate_host (some found.0)
  ok (host, found.1)

abbrev pub is_known : Option Router → Bool
is_known none = false
is_known (some r) = true

abbrev pub parse_named : Inventory → Text → Option (Text × Text) → Result (Text × Router)
parse_named routers entry none = err (policy (entry_invalid entry))
parse_named routers entry (some (left, right)) = do
  let name = strip left
  let address = strip right
  refuse_if (not (full_match is_label_char name)) (name_invalid name)
  found ← parse_host_port address
  refuse_if (is_known (lookup name routers)) (name_duplicate name)
  ok (name, record { name = name; host = found.0; port = found.1 })

-- One round of the loop, up to the assignment.
unfoldable pub parse_entry : Inventory → Text → Result (Text × Router)
unfolding strip split_once full_match is_label_char parse_host_port lookup
parse_entry routers raw = do
  let entry = strip raw
  refuse_if (is_empty entry) entry_empty
  parse_named routers entry (split_once b'=' entry)

-- The loop over the entries. The new key is not in the dictionary, so that it goes to its end.
unfoldable pub parse_entries : Inventory → List Text → Result Inventory
unfolding parse_entry
parse_entries routers [] = ok routers
parse_entries routers (entry ∷ entries) =
    parse_entry routers entry >>= λ added. parse_entries (routers ++ added ∷ []) entries

unfoldable pub parse_router_inventory : Text → Result Inventory
unfolding parse_entries strip split
parse_router_inventory raw = do
  let text = strip raw
  refuse_if (is_empty text) inventory_empty
  parse_entries [] (split b',' text)

abbrev pub or_unknown : Text → Option Router → Result Router
or_unknown router none = err (policy (router_unknown router))
or_unknown router (some r) = ok r

unfoldable pub resolve_router : Inventory → Text → Result Router
unfolding lookup
resolve_router routers router = or_unknown router (lookup router routers)
