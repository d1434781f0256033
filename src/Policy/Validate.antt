-- ===== src/Policy/Validate.antt =====
-- The validators of mcp_server/core.py.
use openwrt_grafana_monitor.Prelude.{
  Bool, List, Option, [], all, below, if◌then◌else◌, is_empty, keep, length, ltb, map, negsuc, none,
  not, pos, some, ℕ, ℤ, ◌&&◌, ◌==◌, ◌||◌, ◌∷◌,
}
use openwrt_grafana_monitor.Text.{
  Text, codes, contains, elem, has_char, is_word, join, last_is, lower, or_else, or_empty,
  parse_int, split, starts_with, strip,
}
use openwrt_grafana_monitor.Policy.Result.{
  Result, err, host_characters, host_name_invalid, host_network, interface_invalid, ok, policy,
  port_out_of_range, profile_characters, profile_empty, profile_full_combined, profile_unknown,
  refuse_if, timeout_not_integer, timeout_not_positive, ◌>>◌,
}
use openwrt_grafana_monitor.Policy.Address.{is_ip_address}

-- `LABEL_RE` and `TAG_RE`, `HOST_RE` and `PROFILE_RE`, as `fullmatch` reads them
unfoldable pub is_label_char : ℕ → Bool
unfolding is_word
is_label_char c = is_word c || c == b'.' || c == b'-'

unfoldable pub is_host_char : ℕ → Bool
unfolding is_word
is_host_char c = is_word c || c == b'.' || c == b':' || c == b'-'

unfoldable pub is_profile_char : ℕ → Bool
unfolding is_word
is_profile_char c = is_word c || c == b',' || c == b'.' || c == b'-'

-- `re.compile(r"^[…]+$").fullmatch(s)`
unfoldable pub full_match : (ℕ → Bool) → Text → Bool
unfolding all
full_match p s = not (is_empty s) && all p s

abbrev pub allowed_profiles : List Text
allowed_profiles =
    codes "core"
    ∷ codes "clients"
    ∷ codes "traffic"
    ∷ codes "wifi_mesh"
    ∷ codes "dpi"
    ∷ codes "full"
    ∷ []

abbrev pub allowed_syslog_protocols : List Text
allowed_syslog_protocols = codes "udp" ∷ codes "tcp" ∷ []

abbrev begins_with_dash : Text → Bool
begins_with_dash s = starts_with (b'-' ∷ []) s

unfoldable pub hostname_bad : Text → Bool
unfolding contains starts_with last_is
hostname_bad s = contains (b'.' ∷ b'.' ∷ []) s || begins_with_dash s || last_is b'-' s

unfoldable pub validate_host : Option Text → Result Text
unfolding strip or_empty full_match is_host_char has_char is_ip_address hostname_bad
validate_host raw = do
  let value = strip (or_empty raw)
  refuse_if (is_empty value || not (full_match is_host_char value)) host_characters
  refuse_if (has_char b'/' value || has_char b'@' value) host_network
  refuse_if (not (is_ip_address value) && hostname_bad value) host_name_invalid
  ok value

-- The argument is an `int` already, so that `int(value)` gives it back.
unfoldable pub validate_port : ℤ → Result ℕ
validate_port (pos port) = do refuse_if (ltb port 1 || ltb 65535 port) port_out_of_range; ok port
validate_port (negsuc n) = err (policy port_out_of_range)

unfoldable pub validate_interface : Text → Result Text
unfolding strip full_match is_host_char
validate_interface raw = do
  let value = strip raw
  refuse_if (is_empty value || not (full_match is_host_char value)) interface_invalid
  ok value

-- `[part.strip() for part in profile.split(",") if part.strip()]`
unfoldable pub comma_parts : Text → List Text
unfolding split strip keep
comma_parts s = keep (λ p. not (is_empty p)) (map strip (split b',' s))

abbrev has_several : List Text → Bool
has_several parts = ltb 1 (length parts)

unfoldable pub normalize_profile : Text → Result Text
unfolding or_else strip full_match is_profile_char comma_parts elem keep join
normalize_profile raw = do
  let profile = strip (or_else raw (codes "core"))
  refuse_if (not (full_match is_profile_char profile)) profile_characters
  let parts = comma_parts profile
  refuse_if (is_empty parts) profile_empty
  let invalid = keep (λ p. not (elem p allowed_profiles)) parts
  refuse_if (not (is_empty invalid)) (profile_unknown invalid)
  refuse_if (elem (codes "full") parts && has_several parts) profile_full_combined
  ok (join (b',' ∷ []) parts)

abbrev pub default_setup_timeout_seconds : ℤ
default_setup_timeout_seconds = pos 600

abbrev check_timeout : Option ℤ → Result ℤ
check_timeout none = err (policy timeout_not_integer)
check_timeout (some t) = do refuse_if (below t 1) timeout_not_positive; ok t

unfoldable pub resolve_setup_timeout_seconds : Option Text → Result ℤ
resolve_setup_timeout_seconds raw =
    let value = strip (or_empty raw) in
    if is_empty value then ok default_setup_timeout_seconds else check_timeout (parse_int value)

abbrev pub truthy : List Text
truthy = codes "1" ∷ codes "true" ∷ codes "yes" ∷ codes "on" ∷ []

-- `_env_flag`
unfoldable pub env_flag : Option Text → Bool
unfolding or_empty strip lower elem
env_flag raw = elem (lower (strip (or_empty raw))) truthy
