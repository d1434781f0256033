-- ===== src/Text/Laws/Tests.antt =====
-- The text functions at concrete inputs.
use openwrt_grafana_monitor.Prelude.{[], negsuc, none, refl, some, true, ◌∷◌, ◌≡◌}
use openwrt_grafana_monitor.Text.{
  codes, isdigit, parse_int, replace, rsplit_once, show_ℕ, split, strip,
}

strip_test : strip (codes "  a b\n") ≡ codes "a b"
unfolding codes strip
strip_test = refl

split_test : split b',' (codes "a,,b") ≡ codes "a" ∷ codes "" ∷ codes "b" ∷ []
unfolding codes split
split_test = refl

replace_test : replace (codes "aa") (codes "b") (codes "aaaxa") ≡ codes "baxa"
unfolding codes replace
replace_test = refl

int_test : parse_int (codes " -1_000 ") ≡ some (negsuc 999)
unfolding codes parse_int
int_test = refl

int_bad : parse_int (codes "1__0") ≡ none
unfolding codes parse_int
int_bad = refl

show_test : show_ℕ 65535 ≡ codes "65535"
unfolding codes show_ℕ
show_test = refl

superscript : isdigit (0xb2 ∷ []) ≡ true
unfolding isdigit
superscript = refl

rsplit_test : rsplit_once b':' (codes "a:b:c") ≡ some (codes "a:b", codes "c")
unfolding codes rsplit_once
rsplit_test = refl
