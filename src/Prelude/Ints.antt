-- ===== src/Prelude/Ints.antt =====
-- Python's integers over the native numbers, as far as the program computes with them.
use Prim.Native.Nat.{ℕ}
use openwrt_grafana_monitor.Prelude.Tests.{ltb}
use mathlib.Core.Bool.{Bool, true, false}

-- `negsuc n` is -(n + 1).
pub data ℤ : Type 0 where
  pos : ℕ → ℤ
  negsuc : ℕ → ℤ

-- `i < n` and `n < i` for a numeral `n`.
abbrev pub below : ℤ → ℕ → Bool
below (pos i) n = ltb i n
below (negsuc i) n = true

abbrev pub above : ℤ → ℕ → Bool
above (pos i) n = ltb n i
above (negsuc i) n = false
