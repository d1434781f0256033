-- ===== src/Policy/Result.antt =====
-- The exceptions of mcp_server/core.py: `PolicyError`, with a value for each place that raises it,
-- and the `ValueError` of `int` where nothing catches it.
use openwrt_grafana_monitor.Prelude.{Bool, List, false, refl, true, ◌≡◌}
use openwrt_grafana_monitor.Text.{Text}

pub data Violation : Type 0 where
  timeout_not_integer timeout_not_positive : Violation
  inventory_empty entry_empty : Violation
  entry_invalid name_invalid name_duplicate router_unknown : Text → Violation
  limit_lines_out_of_range : Violation
  diagnostic_invalid restart_invalid : Text → Violation
  message_too_long tag_invalid proto_invalid setup_timeout_not_positive : Violation
  profile_characters profile_empty profile_full_combined : Violation
  profile_unknown : List Text → Violation
  interface_invalid host_characters host_network host_name_invalid : Violation
  port_out_of_range confirm_required output_limit_not_positive address_empty : Violation
  host_key_failure : Text → Violation
  payload_missing : Violation

pub data Error : Type 0 where
  policy : Violation → Error
  value_error : Error

-- What a call comes back with: its value, or the exception it raised.
pub data Result {ℓ} (V : Type ℓ) : Type ℓ where
  err : Error → Result V
  ok : V → Result V

infixl 5 ◌>>=◌ ◌>>◌
-- What stands after a call runs where it returned.
abbrev pub ◌>>=◌ {ℓ κ} : {A : Type ℓ} {B : Type κ} → Result A → (A → Result B) → Result B
err e >>= next = err e
ok v >>= next = next v

-- After a check, which has no value.
abbrev pub ◌>>◌ {ℓ} : {V : Type ℓ} → Result (Unit {0}) → Result V → Result V
check >> rest = check >>= λ _. rest

-- `if bad: raise PolicyError(…)`
abbrev pub refuse_if : Bool → Violation → Result (Unit {0})
refuse_if false why = ok tt
refuse_if true why = err (policy why)

pub >>=-eq-ok {ℓ κ} :
    {A : Type ℓ} {B : Type κ} (call : Result A) (next : A → Result B) {w : B}
    → (call >>= next) ≡ ok w
    → (v : A) × (call ≡ ok v) × (next v ≡ ok w)
>>=-eq-ok (err e) next h = cc
>>=-eq-ok (ok v) next h = (v, refl, h)

-- A block that returns went past its guard.
pub refuse_if-eq-ok {ℓ} :
    {V : Type ℓ} (bad : Bool) (why : Violation) (rest : Result V) {v : V}
    → (refuse_if bad why >> rest) ≡ ok v
    → (bad ≡ false) × (rest ≡ ok v)
refuse_if-eq-ok false why rest h = (refl, h)
refuse_if-eq-ok true why rest h = cc

pub ok-injective {ℓ} : {A : Type ℓ} (a b : A) → ok a ≡ ok b → a ≡ b
ok-injective a b h = cc
