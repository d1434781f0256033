-- ===== src/Policy/Examples.antt =====
-- The theorems on the policy at concrete inputs.
use openwrt_grafana_monitor.Prelude.{List, [], false, pos, refl, some, true, ℕ, ◌++◌, ◌∷◌, ◌≡◌}
use openwrt_grafana_monitor.Text.{
  Text, codes, contains, elem, has_char, lower, or_else, show_ℕ, strip,
}
use openwrt_grafana_monitor.Policy.Validate.{
  allowed_syslog_protocols, normalize_profile, validate_host, validate_port,
}
use openwrt_grafana_monitor.Policy.Inventory.{Inventory, parse_router_inventory}
use openwrt_grafana_monitor.Policy.Inventory.Parsed.{
  IsInventory, parse_router_inventory-IsInventory,
}
use openwrt_grafana_monitor.Policy.Commands.{
  CommandSpec, build_configure_syslog_command, build_setup_command, build_test_log_command,
  configure_spec, default_message, default_tag, env_parts, interface_parts, setup_spec,
  test_log_spec,
}
use openwrt_grafana_monitor.Policy.Commands.Reading.{
  build_configure_syslog_command-words, build_test_log_command-words, configure_words, log_words,
}
use openwrt_grafana_monitor.Policy.Commands.Setup.{
  Interfaces, build_setup_command-words, setup_words,
}
use openwrt_grafana_monitor.Policy.Result.{ok}
use openwrt_grafana_monitor.Policy.Output.{redact, truncate_output, truncation_mark}
use openwrt_grafana_monitor.Shell.Words.{shell_words}
use openwrt_grafana_monitor.Policy.Redaction.{IsOpaque, redact-clean, truncate_output-clean}

abbrev hostile : Text
hostile = codes " it's; reboot "

test_log_example :
    shell_words (test_log_spec (codes "probe") (codes "it's; reboot")).command
    ≡ some (
        log_words
          (strip (or_else (codes "probe") default_tag))
          (strip (or_else hostile default_message)))
unfolding build_test_log_command codes
test_log_example =
    build_test_log_command-words hostile (codes "probe")
      (test_log_spec (codes "probe") (codes "it's; reboot")) refl

configure_example :
    (host : Text) × (port : ℕ) × (validate_host (some (codes " logs.lan ")) ≡ ok host)
    × (validate_port (pos 1514) ≡ ok port)
    × (elem (strip (lower (codes "UDP"))) allowed_syslog_protocols ≡ true)
    × (shell_words (configure_spec (codes "logs.lan") 1514 (codes "udp")).command
        ≡ some (configure_words host (show_ℕ port) (strip (lower (codes "UDP")))))
unfolding build_configure_syslog_command validate_host validate_port codes strip lower elem
configure_example =
    build_configure_syslog_command-words (codes " logs.lan ") (pos 1514) (codes "UDP")
      (configure_spec (codes "logs.lan") 1514 (codes "udp")) refl

abbrev example_setup : CommandSpec
example_setup =
    setup_spec (env_parts (codes "core,dpi") 1514 (codes "udp") ++ []) (codes "10.0.0.2") (pos 600)

setup_example :
    (host : Text) × (port : ℕ) × (profile : Text) × (values : List Text) × (validate_host
        (some (codes "10.0.0.2"))
      ≡ ok host)
    × (validate_port (pos 1514) ≡ ok port)
    × (normalize_profile (codes "core,,dpi") ≡ ok profile)
    × Interfaces [] values
    × (elem (strip (lower (codes "udp"))) allowed_syslog_protocols ≡ true)
    × (shell_words example_setup.command
        ≡ setup_words profile port (strip (lower (codes "udp"))) values host)
unfolding build_setup_command validate_host validate_port normalize_profile interface_parts codes
    strip lower elem
setup_example =
    build_setup_command-words (codes "10.0.0.2") (codes "core,,dpi") [] (pos 1514) (codes "udp")
      (pos 600) example_setup refl

abbrev secret : Text
secret = codes "hunter22"

secret-IsOpaque : IsOpaque secret
unfolding codes has_char contains
secret-IsOpaque = record {
  long = refl;
  no_open = refl;
  no_close = refl;
  no_line = refl;
  outside = refl;
  not_truncated = refl;
}

redact_example :
    contains secret (redact (codes "pw=hunter22!") ([] ++ secret ∷ codes "token" ∷ [])) ≡ false
redact_example = redact-clean secret [] (codes "token" ∷ []) (codes "pw=hunter22!") secret-IsOpaque

truncate_example : contains secret (codes "long" ++ truncation_mark) ≡ false
unfolding codes contains truncate_output
truncate_example =
    truncate_output-clean secret (codes "long output") (codes "long" ++ truncation_mark) (pos 4)
      true secret-IsOpaque refl refl

abbrev two_routers : Inventory
two_routers =
    (codes "a", record { name = codes "a"; host = codes "192.168.0.1"; port = 2222 })
    ∷ (codes "b", record { name = codes "b"; host = codes "fe80::1"; port = 22 })
    ∷ []

routers_example : IsInventory two_routers
unfolding codes parse_router_inventory
routers_example =
    parse_router_inventory-IsInventory (codes " a=192.168.0.1:2222, b = fe80::1") two_routers refl
