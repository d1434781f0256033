-- ===== src/Oui/Index.antt =====
-- The index that `build` writes: fixed-width records, whose last two characters are a number.
use openwrt_grafana_monitor.Prelude.{
  [], arith, if◌then◌else◌, length, ltb, refl, ℕ, ◌%◌, ◌*◌, ◌+◌, ◌-◌, ◌/◌, ◌<◌, ◌∷◌, ◌≡◌, ◌≤◌,
}
use openwrt_grafana_monitor.Text.{Text}
use openwrt_grafana_monitor.Oui.Build.{
  base36, built, digit36, index_len, index_overflow, max_vendors, stopped,
}

-- The value of a base-36 digit, `0` to `9` and `a` to `z`.
unfoldable pub digit_value : ℕ → ℕ
digit_value c = if ltb c 58 then c - 48 else c - 87

-- The number that a text of base-36 digits stands for, after the digits with the value `n`.
unfoldable pub number36 : ℕ → Text → ℕ
unfolding digit_value
number36 n [] = n
number36 n (c ∷ s) = number36 (36 * n + digit_value c) s

digit36-value : (r : ℕ) → r < 36 → digit_value (digit36 r) ≡ r
unfolding digit_value
digit36-value r h = ground arith

two_digits :
    (n : ℕ)
    → number36 0 (digit36 (n / 36 % 36) ∷ digit36 (n % 36) ∷ []) ≡ 36 * (n / 36 % 36) + n % 36
unfolding number36
two_digits n =
    let high = digit36-value (n / 36 % 36) (omega arith) in
    let low = digit36-value (n % 36) (omega arith) in rw (high, low) (omega arith)

-- A number below `36 ** INDEX_LEN` is written by `base36` in as many characters as the index has
-- room for, and `number36` reads the number back from them.
pub base36-number36 :
    (n : ℕ)
    → n < max_vendors
    → (out : Text) × (base36 n ≡ built out) × (length out ≡ index_len) × (number36 0 out ≡ n)
unfolding base36
base36-number36 n h =
    (digit36 (n / 36 % 36) ∷ digit36 (n % 36) ∷ [], ground arith, refl, omega (arith, two_digits n))

-- A number of `36 ** INDEX_LEN` or more makes `base36` raise.
pub base36-overflow : (n : ℕ) → max_vendors ≤ n → base36 n ≡ stopped index_overflow
unfolding base36
base36-overflow n h = ground arith
