-- ===== src/Text/Classes.antt =====
-- Classes of code points.
use openwrt_grafana_monitor.Prelude.{Bool, leb, ℕ, ◌&&◌, ◌==◌, ◌||◌}

unfoldable pub is_digit : ℕ → Bool
is_digit c = leb b'0' c && leb c b'9'

unfoldable pub is_upper : ℕ → Bool
is_upper c = leb b'A' c && leb c b'Z'

unfoldable pub is_lower : ℕ → Bool
is_lower c = leb b'a' c && leb c b'z'

-- `[A-Za-z0-9_]`, which is `\w` under `re.ASCII`
unfoldable pub is_word : ℕ → Bool
unfolding is_digit is_upper is_lower
is_word c = is_upper c || is_lower c || is_digit c || c == b'_'

-- The white space that `str.strip` removes.
unfoldable pub is_space : ℕ → Bool
is_space c =
    leb 9 c && leb c 13
    || leb 28 c && leb c 32
    || c == 0x85
    || c == 0xa0
    || c == 0x1680
    || leb 0x2000 c && leb c 0x200a
    || c == 0x2028
    || c == 0x2029
    || c == 0x202f
    || c == 0x205f
    || c == 0x3000
