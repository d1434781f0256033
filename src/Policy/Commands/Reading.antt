-- ===== src/Policy/Commands/Reading.antt =====
-- How the shell of the router reads the commands that hold arguments.
use openwrt_grafana_monitor.Prelude.{
  List, Option, [], ap, append-nil, arith, none, not, refl, some, sym, true, ℕ, ℤ, ◌++◌, ◌∙◌, ◌∷◌,
  ◌≡◌,
}
use openwrt_grafana_monitor.Text.{Text, codes, elem, lower, or_else, show_ℕ, strip}
use openwrt_grafana_monitor.Policy.Commands.{
  CommandSpec, allowed_syslog_protocols, build_configure_syslog_command, build_test_log_command,
  configure_text, default_message, default_tag, proto_invalid, test_log_spec, validate_host,
  validate_port,
}
use openwrt_grafana_monitor.Policy.Result.{>>=-eq-ok, ok, proto_invalid, refuse_if-eq-ok}
use openwrt_grafana_monitor.Policy.Validate.{allowed_syslog_protocols}
use openwrt_grafana_monitor.Shell.Words.{
  Token, bare, emit, operate, operator, read, shell_words, word,
}
use openwrt_grafana_monitor.Shell.{quote}
use openwrt_grafana_monitor.Shell.Quoting.{read-quote}

read_end : (w : Text) → read bare (some w) [] ≡ some (word w ∷ [])
unfolding read
read_end w = refl

pub read_last_quote : (s : Text) → read bare none (quote s) ≡ some (word s ∷ [])
read_last_quote s =
    ap (read bare none) (sym (append-nil (quote s))) ∙ read-quote none s [] ∙ read_end s

log_prefix :
    (rest : Text)
    → read bare none (codes "logger -t " ++ rest)
      ≡ emit (some (codes "logger")) (emit (some (codes "-t")) (read bare none rest))
unfolding read codes
log_prefix rest = refl

read_space :
    (w rest : Text) → read bare (some w) (codes " " ++ rest) ≡ emit (some w) (read bare none rest)
unfolding read codes
read_space w rest = refl

abbrev pub log_words : Text → Text → List Token
log_words tag message = word (codes "logger") ∷ word (codes "-t") ∷ word tag ∷ word message ∷ []

log_command_words :
    (tag message : Text)
    → shell_words (codes "logger -t " ++ (quote tag ++ (codes " " ++ quote message)))
      ≡ some (log_words tag message)
unfolding shell_words
log_command_words tag message = rw (log_prefix, read-quote, read_space, read_last_quote)

test_log_fields :
    (message tag : Text) (spec : CommandSpec)
    → build_test_log_command message tag ≡ ok spec
    → test_log_spec (strip (or_else tag default_tag)) (strip (or_else message default_message))
      ≡ spec
unfolding build_test_log_command
test_log_fields message tag spec h = ground arith

-- Whatever the message and the tag, the shell reads the command that is built as `logger` with
-- three arguments: `-t`, the trimmed tag and the trimmed message. Nothing of the message is run.
pub build_test_log_command-words :
    (message tag : Text) (spec : CommandSpec)
    → build_test_log_command message tag ≡ ok spec
    → shell_words spec.command
      ≡ some (log_words (strip (or_else tag default_tag)) (strip (or_else message default_message)))
build_test_log_command-words message tag spec h =
    rw (← test_log_fields message tag spec h) (log_command_words _ _)

abbrev pub configure_words : Text → Text → Text → List Token
configure_words host port proto =
    word (codes "uci")
    ∷ word (codes "set")
    ∷ word (codes "system.@system[0].log_ip=" ++ host)
    ∷ operator b';'
    ∷ word (codes "uci")
    ∷ word (codes "set")
    ∷ word (codes "system.@system[0].log_port=" ++ port)
    ∷ operator b';'
    ∷ word (codes "uci")
    ∷ word (codes "set")
    ∷ word (codes "system.@system[0].log_proto=" ++ proto)
    ∷ operator b';'
    ∷ word (codes "uci")
    ∷ word (codes "commit")
    ∷ word (codes "system")
    ∷ operator b';'
    ∷ word (codes "/etc/init.d/log")
    ∷ word (codes "restart")
    ∷ operator b';'
    ∷ word (codes "uci")
    ∷ word (codes "-q")
    ∷ word (codes "show")
    ∷ word (codes "system")
    ∷ operator b'|'
    ∷ word (codes "grep")
    ∷ word (codes "log_")
    ∷ []

abbrev uci_set : Option (List Token) → Option (List Token)
uci_set ts = emit (some (codes "uci")) (emit (some (codes "set")) ts)

ip_prefix :
    (rest : Text)
    → read bare none (codes "uci set system.@system[0].log_ip=" ++ rest)
      ≡ uci_set (read bare (some (codes "system.@system[0].log_ip=")) rest)
unfolding read codes
ip_prefix rest = refl

port_prefix :
    (w rest : Text)
    → read bare (some w) (codes "; uci set system.@system[0].log_port=" ++ rest)
      ≡ emit
          (some w)
          (operate b';' (uci_set (read bare (some (codes "system.@system[0].log_port=")) rest)))
unfolding read codes
port_prefix w rest = refl

proto_prefix :
    (w rest : Text)
    → read bare (some w) (codes "; uci set system.@system[0].log_proto=" ++ rest)
      ≡ emit
          (some w)
          (operate b';' (uci_set (read bare (some (codes "system.@system[0].log_proto=")) rest)))
unfolding read codes
proto_prefix w rest = refl

configure_end :
    (w : Text)
    → read bare
        (some w)
        (codes "; uci commit system; /etc/init.d/log restart; uci -q show system | grep 'log_'")
      ≡ some (
          word w
          ∷ operator b';'
          ∷ word (codes "uci")
          ∷ word (codes "commit")
          ∷ word (codes "system")
          ∷ operator b';'
          ∷ word (codes "/etc/init.d/log")
          ∷ word (codes "restart")
          ∷ operator b';'
          ∷ word (codes "uci")
          ∷ word (codes "-q")
          ∷ word (codes "show")
          ∷ word (codes "system")
          ∷ operator b'|'
          ∷ word (codes "grep")
          ∷ word (codes "log_")
          ∷ [])
unfolding read codes
configure_end w = refl

configure_text_words :
    (host : Text) (port : ℕ) (proto : Text)
    → shell_words (configure_text host port proto) ≡ some (configure_words host (show_ℕ port) proto)
unfolding shell_words
configure_text_words host port proto =
    rw (ip_prefix, read-quote, port_prefix, read-quote, proto_prefix, read-quote, configure_end)

configure_fields :
    (raw_host : Text) (raw_port : ℤ) (raw_proto : Text) (spec : CommandSpec)
    → build_configure_syslog_command raw_host raw_port raw_proto ≡ ok spec
    → (host : Text) × (port : ℕ) × (validate_host (some raw_host) ≡ ok host)
      × (validate_port raw_port ≡ ok port)
      × (elem (strip (lower raw_proto)) allowed_syslog_protocols ≡ true)
      × (spec.command ≡ configure_text host port (strip (lower raw_proto)))
unfolding build_configure_syslog_command
configure_fields raw_host raw_port raw_proto spec h =
    let (host, hosted, h1) = >>=-eq-ok (validate_host (some raw_host)) _ h in
    let (port, ported, h2) = >>=-eq-ok (validate_port raw_port) _ h1 in
    let (known, h3) =
      refuse_if-eq-ok (not (elem (strip (lower raw_proto)) allowed_syslog_protocols)) proto_invalid
        _ h2 in
    (host, port, hosted, ported, ground arith, ground arith)

-- The command that is built for any arguments that pass is read as three settings of the trimmed
-- host, the port and the protocol (which is an allowed one), each one word, and three fixed commands.
pub build_configure_syslog_command-words :
    (raw_host : Text) (raw_port : ℤ) (raw_proto : Text) (spec : CommandSpec)
    → build_configure_syslog_command raw_host raw_port raw_proto ≡ ok spec
    → (host : Text) × (port : ℕ) × (validate_host (some raw_host) ≡ ok host)
      × (validate_port raw_port ≡ ok port)
      × (elem (strip (lower raw_proto)) allowed_syslog_protocols ≡ true)
      × (shell_words spec.command
          ≡ some (configure_words host (show_ℕ port) (strip (lower raw_proto))))
build_configure_syslog_command-words raw_host raw_port raw_proto spec h =
    let (host, port, hosted, ported, allowed, made) =
      configure_fields raw_host raw_port raw_proto spec h in
    (
      host,
      port,
      hosted,
      ported,
      allowed,
      ap shell_words made ∙ configure_text_words host port (strip (lower raw_proto)),
    )
