-- ===== src/Policy/Inventory/Parsed.antt =====
-- What a router inventory that `parse_router_inventory` accepts holds.
use openwrt_grafana_monitor.Prelude.{
  All, All-append, All-mono, Bool, List, Option, [], arith, false, if◌then◌else◌, is_empty, negsuc,
  none, not, pos, refl, some, subst, true, ℕ, ℤ, ◌++◌, ◌==◌, ◌∷◌, ◌≡◌, ◌≤◌,
}
use openwrt_grafana_monitor.Text.{
  Text, count_char, isdigit, lookup, parse_int, rsplit_once, split, split_once, strip, text_eq_refl,
}
use openwrt_grafana_monitor.Policy.Inventory.{
  Inventory, Result, Router, address_empty, entry_empty, inventory_empty, is_known, is_label_char,
  name_duplicate, name_invalid, parse_entries, parse_entry, parse_host_port, parse_named,
  parse_router_inventory, port_of_int, split_port,
}
use openwrt_grafana_monitor.Policy.Result.{
  >>=-eq-ok, Result, address_empty, entry_empty, inventory_empty, name_duplicate, name_invalid, ok,
  ok-injective, refuse_if-eq-ok, ◌>>=◌,
}
use openwrt_grafana_monitor.Policy.Validate.{
  full_match, is_host_char, is_label_char, validate_host, validate_port,
}

-- An entry under a label that is also the router's name, with a host of the allowed characters and a
-- port that there is.
pub record IsEntry (i : Text × Router) : Type 0 where
  pub keyed : i.1.name ≡ i.0
  pub label : full_match is_label_char i.0 ≡ true
  pub hosted : full_match is_host_char i.1.host ≡ true
  pub port_low : 1 ≤ i.1.port
  pub port_high : i.1.port ≤ 65535

-- Every entry is well-formed, and is what its name is looked up to.
abbrev pub IsInventory : Inventory → Type 0
IsInventory routers = All (λ i. IsEntry i × (lookup i.0 routers ≡ some i.1)) routers

validate_port-bounds :
    (raw : ℤ) (port : ℕ) → validate_port raw ≡ ok port → (1 ≤ port) × (port ≤ 65535)
unfolding validate_port
validate_port-bounds (pos n) port h = (ground arith, ground arith)
validate_port-bounds (negsuc n) port h = cc

validate_host-chars :
    (raw : Option Text) (host : Text)
    → validate_host raw ≡ ok host
    → full_match is_host_char host ≡ true
unfolding validate_host
validate_host-chars raw host h = ground arith

abbrev InRange : ℕ → Type 0
InRange port = (1 ≤ port) × (port ≤ 65535)

port_of_int-bounds : (n : Option ℤ) (port : ℕ) → port_of_int n ≡ ok port → InRange port
port_of_int-bounds none port h = cc
port_of_int-bounds (some n) port h = validate_port-bounds n port h

default_port : (address : Text) (found : Text × ℕ) → ok (address, 22) ≡ ok found → InRange found.1
default_port address found h =
    subst (λ f. InRange f.1) (ok-injective (address, 22) found h) (omega arith, omega arith)

numbered :
    (digits : Bool) (m : Result ℕ) (host address : Text) (found : Text × ℕ)
    → ((port : ℕ) → m ≡ ok port → InRange port)
    → (if digits then (do port ← m; ok (host, port)) else ok (address, 22)) ≡ ok found
    → InRange found.1
numbered false m host address found k h = default_port address found h
numbered true m host address found k h =
    let (port, e, same) = >>=-eq-ok m _ h in
    subst (λ f. InRange f.1) (ok-injective (host, port) found same) (k port e)

split_port-bounds :
    (address : Text) (o : Option (Text × Text)) (found : Text × ℕ)
    → split_port address o ≡ ok found
    → InRange found.1
split_port-bounds address none found h = default_port address found h
split_port-bounds address (some (maybe_host, maybe_port)) found h =
    numbered (isdigit maybe_port) (port_of_int (parse_int maybe_port)) maybe_host address found
      (port_of_int-bounds (parse_int maybe_port)) h

abbrev IsAddress : Text × ℕ → Type 0
IsAddress found = (full_match is_host_char found.0 ≡ true) × InRange found.1

parse_host_port-IsAddress :
    (address : Text) (found : Text × ℕ) → parse_host_port address ≡ ok found → IsAddress found
unfolding parse_host_port
parse_host_port-IsAddress address found h =
    let parts = if count_char b':' address == 1 then rsplit_once b':' address else none in
    let (filled, h1) = refuse_if-eq-ok (is_empty address) address_empty _ h in
    let (split_at, cut, h2) = >>=-eq-ok (split_port address parts) _ h1 in
    let (host, valid, h3) = >>=-eq-ok (validate_host (some split_at.0)) _ h2 in
    subst IsAddress (ok-injective (host, split_at.1) found h3) (
      validate_host-chars (some split_at.0) host valid,
      split_port-bounds address parts split_at cut,
    )

-- What one round of the loop adds.
abbrev IsNew : Inventory → Text × Router → Type 0
IsNew routers i = IsEntry i × (lookup i.0 routers ≡ none)

unknown-none : (o : Option Router) → is_known o ≡ false → o ≡ none
unknown-none none h = refl
unknown-none (some r) h = cc

parse_named-IsNew :
    (routers : Inventory) (entry : Text) (o : Option (Text × Text)) (added : Text × Router)
    → parse_named routers entry o ≡ ok added
    → IsNew routers added
parse_named-IsNew routers entry none added h = cc
parse_named-IsNew routers entry (some (left, right)) added h =
    let name = strip left in
    let (labelled, h1) =
      refuse_if-eq-ok (not (full_match is_label_char name)) (name_invalid name) _ h in
    let (found, parsed, h2) = >>=-eq-ok (parse_host_port (strip right)) _ h1 in
    let (new, h3) = refuse_if-eq-ok (is_known (lookup name routers)) (name_duplicate name) _ h2 in
    let (chars, (low, high)) = parse_host_port-IsAddress (strip right) found parsed in
    subst (IsNew routers)
      (ok-injective (name, record { name = name; host = found.0; port = found.1 }) added h3)
      (
        record {
          keyed = refl;
          label = ground arith;
          hosted = chars;
          port_low = low;
          port_high = high;
        },
        unknown-none (lookup name routers) new,
      )

lookup-front :
    (name : Text) (routers more : Inventory) (r : Router)
    → lookup name routers ≡ some r
    → lookup name (routers ++ more) ≡ some r
unfolding lookup
lookup-front name [] more r h = cc
lookup-front name ((k, q) ∷ routers) more r h = ground (arith, lookup-front name routers more r)

lookup-new :
    (name : Text) (routers : Inventory) (r : Router)
    → lookup name routers ≡ none
    → lookup name (routers ++ (name, r) ∷ []) ≡ some r
unfolding lookup
lookup-new name [] r h = ground (arith, text_eq_refl name)
lookup-new name ((k, q) ∷ routers) r h = ground (arith, lookup-new name routers r)

parse_entry-IsNew :
    (routers : Inventory) (raw : Text) (added : Text × Router)
    → parse_entry routers raw ≡ ok added
    → IsNew routers added
unfolding parse_entry
parse_entry-IsNew routers raw added h =
    let (filled, h1) = refuse_if-eq-ok (is_empty (strip raw)) entry_empty _ h in
    parse_named-IsNew routers (strip raw) (split_once b'=' (strip raw)) added h1

-- The entries that were there are still found when one more is added.
entries_stay :
    (more : Inventory) (all_of rest : Inventory)
    → All (λ i. IsEntry i × (lookup i.0 all_of ≡ some i.1)) rest
    → All (λ i. IsEntry i × (lookup i.0 (all_of ++ more) ≡ some i.1)) rest
entries_stay more all_of rest a =
    All-mono _ _ (λ i (e, l). (e, lookup-front i.0 all_of more i.1 l)) rest a

add-IsInventory :
    (routers : Inventory) (added : Text × Router)
    → IsNew routers added
    → IsInventory routers
    → IsInventory (routers ++ added ∷ [])
add-IsInventory routers (name, r) (e, l) a =
    All-append _ routers ((name, r) ∷ []) (entries_stay ((name, r) ∷ []) routers routers a)
      ((e, lookup-new name routers r l), tt)

parse_entries-IsInventory :
    (entries : List Text) (routers out : Inventory)
    → IsInventory routers
    → parse_entries routers entries ≡ ok out
    → IsInventory out
unfolding parse_entries
parse_entries-IsInventory [] routers out a h = subst IsInventory (ok-injective routers out h) a
parse_entries-IsInventory (entry ∷ entries) routers out a h =
    let (added, parsed, h1) = >>=-eq-ok (parse_entry routers entry) _ h in
    parse_entries-IsInventory entries (routers ++ added ∷ []) out
      (add-IsInventory routers added (parse_entry-IsNew routers entry added parsed) a) h1

-- In an inventory that is accepted, each entry stands under its router's name, which is a label and
-- is looked up to that router and no other; its host has only the allowed characters, and its port
-- is from 1 to 65535.
pub parse_router_inventory-IsInventory :
    (raw : Text) (out : Inventory) → parse_router_inventory raw ≡ ok out → IsInventory out
unfolding parse_router_inventory
parse_router_inventory-IsInventory raw out h =
    let (filled, h1) = refuse_if-eq-ok (is_empty (strip raw)) inventory_empty _ h in
    parse_entries-IsInventory (split b',' (strip raw)) [] out tt h1
