-- ===== src/Policy/Commands/Setup.antt =====
-- How the shell of the router reads the command that runs setup.sh.
use openwrt_grafana_monitor.Prelude.{
  All, List, Option, [], all, all-All, ap, append_assoc, arith, below, false, inl, inr, is_empty,
  map, none, not, refl, some, true, ℕ, ℤ, ◌++◌, ◌∙◌, ◌∷◌, ◌≡◌, ◌≢◌, ◌⊎◌,
}
use openwrt_grafana_monitor.Text.{Text, codes, elem, join, lower, show_ℕ, strip}
use openwrt_grafana_monitor.Policy.Commands.{
  CommandSpec, assignment, build_setup_command, env_parts, interface_parts, normalize_profile, ok,
  proto_invalid, quote, setup_text, setup_timeout_not_positive, validate_host, validate_interface,
  validate_port,
}
use openwrt_grafana_monitor.Policy.Result.{
  >>=-eq-ok, ok, proto_invalid, refuse_if-eq-ok, setup_timeout_not_positive,
}
use openwrt_grafana_monitor.Policy.Validate.{
  allowed_syslog_protocols, normalize_profile, validate_host, validate_interface, validate_port,
}
use openwrt_grafana_monitor.Shell.Quoting.{is_plain, read-quote, read_plain_char, read_word}
use openwrt_grafana_monitor.Policy.Commands.Reading.{read_last_quote}
use openwrt_grafana_monitor.Shell.{quote}
use openwrt_grafana_monitor.Shell.Words.{Token, bare, emit, read, shell_words, word}

-- The word `NAME=value` that the shell hands on as an assignment.
abbrev pub assigned_word : Text × Text → Text
assigned_word (name, value) = name ++ (b'=' ∷ value)

abbrev assigned_text : Text × Text → Text
assigned_text (name, value) = assignment name value

-- A name of capital letters and underscores is read as it stands.
abbrev IsPlainName : Text × Text → Type 0
IsPlainName (name, value) = (name ≢ []) × All (λ c. is_plain c ≡ true) name

equals_plain : is_plain b'=' ≡ true
unfolding is_plain
equals_plain = refl

read_assignment :
    (p : Text × Text) (rest : Text)
    → IsPlainName p
    → read bare none (assigned_text p ++ rest) ≡ read bare (some (assigned_word p)) rest
read_assignment ([], value) rest h = absurd (h.0 refl)
read_assignment (c ∷ name, value) rest h =
    ap (read bare none) (append_assoc (c ∷ name) (b'=' ∷ quote value) rest)
    ∙ read_word none c name (b'=' ∷ (quote value ++ rest)) h.1
    ∙ read_plain_char (c ∷ name) b'=' (quote value ++ rest) equals_plain
    ∙ read-quote (some ((c ∷ name) ++ b'=' ∷ [])) value rest
    ∙ ap (λ w. read bare (some w) rest) (append_assoc (c ∷ name) (b'=' ∷ []) value)

read_blank :
    (w rest : Text) → read bare (some w) (b' ' ∷ rest) ≡ emit (some w) (read bare none rest)
unfolding read
read_blank w rest = refl

abbrev emit_all : List Text → Option (List Token) → Option (List Token)
emit_all [] ts = ts
emit_all (w ∷ ws) ts = emit (some w) (emit_all ws ts)

-- Assignments joined by blanks, and what follows them.
read_assignments :
    (p : Text × Text) (ps : List (Text × Text)) (rest : Text)
    → All IsPlainName (p ∷ ps)
    → read bare none (join (b' ' ∷ []) (map assigned_text (p ∷ ps)) ++ (b' ' ∷ rest))
      ≡ emit_all (map assigned_word (p ∷ ps)) (read bare none rest)
unfolding join
read_assignments p [] rest h = read_assignment p (b' ' ∷ rest) h.0 ∙ read_blank _ rest
read_assignments p (q ∷ ps) rest h =
    ap (read bare none) (
      append_assoc (assigned_text p) (b' ' ∷ join (b' ' ∷ []) (map assigned_text (q ∷ ps)))
        (b' ' ∷ rest))
    ∙ read_assignment p _ h.0
    ∙ read_blank _ _
    ∙ ap (emit (some (assigned_word p))) (read_assignments q ps rest h.1)

setup_prefix :
    (rest : Text)
    → read bare none (codes "sh /tmp/openwrt/setup.sh " ++ rest)
      ≡ emit (some (codes "sh")) (emit (some (codes "/tmp/openwrt/setup.sh")) (read bare none rest))
unfolding read codes
setup_prefix rest = refl

blank_codes : codes " " ≡ b' ' ∷ []
unfolding codes
blank_codes = refl

sh_codes :
    (rest : Text)
    → codes " sh /tmp/openwrt/setup.sh " ++ rest
      ≡ b' ' ∷ (codes "sh /tmp/openwrt/setup.sh " ++ rest)
unfolding codes
sh_codes rest = refl

setup_text_words :
    (p : Text × Text) (ps : List (Text × Text)) (host : Text)
    → All IsPlainName (p ∷ ps)
    → shell_words (setup_text (map assigned_text (p ∷ ps)) host)
      ≡ emit_all
          (map assigned_word (p ∷ ps))
          (some (word (codes "sh") ∷ word (codes "/tmp/openwrt/setup.sh") ∷ word host ∷ []))
unfolding shell_words
setup_text_words p ps host h =
    rw (blank_codes, sh_codes)
      (read_assignments p ps (codes "sh /tmp/openwrt/setup.sh " ++ quote host) h
        ∙ rw (setup_prefix, read_last_quote))

-- The values of the interface argument: none where it is empty, the trimmed one where it is valid.
abbrev pub Interfaces : Text → List Text → Type 0
Interfaces raw values =
    (raw ≡ []) × (values ≡ [])
    ⊎ (value : Text) × (validate_interface raw ≡ ok value) × (values ≡ value ∷ [])

abbrev interface_pairs : List Text → List (Text × Text)
interface_pairs [] = []
interface_pairs (value ∷ values) = (codes "TRAFFIC_LAN_INTERFACE", value) ∷ interface_pairs values

-- What setup.sh finds in its environment.
abbrev more_pairs : ℕ → Text → List Text → List (Text × Text)
more_pairs port proto values =
    (codes "SYSLOG_PORT", show_ℕ port) ∷ (codes "SYSLOG_PROTO", proto) ∷ interface_pairs values

abbrev pub setup_words : Text → ℕ → Text → List Text → Text → Option (List Token)
setup_words profile port proto values host =
    emit_all
      (map assigned_word
        ((codes "OPENWRT_MONITOR_PROFILE", profile) ∷ more_pairs port proto values))
      (some (word (codes "sh") ∷ word (codes "/tmp/openwrt/setup.sh") ∷ word host ∷ []))

plain_name : (s value : Text) → is_empty s ≡ false → all is_plain s ≡ true → IsPlainName (s, value)
plain_name [] value e h = cc
plain_name (c ∷ s) value e h = ((λ k. cc k), all-All is_plain (c ∷ s) h)

interfaces_plain : (values : List Text) → All IsPlainName (interface_pairs values)
unfolding codes all is_plain
interfaces_plain [] = tt
interfaces_plain (value ∷ values) =
    (plain_name (codes "TRAFFIC_LAN_INTERFACE") value refl refl, interfaces_plain values)

names_plain :
    (profile : Text) (port : ℕ) (proto : Text) (values : List Text)
    → All IsPlainName ((codes "OPENWRT_MONITOR_PROFILE", profile) ∷ more_pairs port proto values)
unfolding codes all is_plain
names_plain profile port proto values = (
  plain_name (codes "OPENWRT_MONITOR_PROFILE") profile refl refl,
  (
    plain_name (codes "SYSLOG_PORT") (show_ℕ port) refl refl,
    (plain_name (codes "SYSLOG_PROTO") proto refl refl, interfaces_plain values),
  ),
)

interface_parts_lem :
    (raw : Text) (extra : List Text)
    → interface_parts raw ≡ ok extra
    → (values : List Text) × Interfaces raw values
      × (extra ≡ map assigned_text (interface_pairs values))
unfolding interface_parts
interface_parts_lem [] extra h = ([], inl (refl, refl), ground arith)
interface_parts_lem (c ∷ s) extra h =
    let (value, valid, e) = >>=-eq-ok (validate_interface (c ∷ s)) _ h in
    (value ∷ [], inr (value, valid, refl), ground arith)

setup_fields :
    (raw_host raw_profile interface : Text) (raw_port : ℤ) (raw_proto : Text) (timeout : ℤ)
    (spec : CommandSpec)
    → build_setup_command raw_host raw_profile interface raw_port raw_proto timeout ≡ ok spec
    → (host : Text) × (port : ℕ) × (profile : Text) × (extra : List Text) × (validate_host
          (some raw_host)
        ≡ ok host)
      × (validate_port raw_port ≡ ok port)
      × (normalize_profile raw_profile ≡ ok profile)
      × (interface_parts interface ≡ ok extra)
      × (elem (strip (lower raw_proto)) allowed_syslog_protocols ≡ true)
      × (spec.command ≡ setup_text (env_parts profile port (strip (lower raw_proto)) ++ extra) host)
unfolding build_setup_command
setup_fields raw_host raw_profile interface raw_port raw_proto timeout spec h =
    let (host, hosted, h1) = >>=-eq-ok (validate_host (some raw_host)) _ h in
    let (port, ported, h2) = >>=-eq-ok (validate_port raw_port) _ h1 in
    let (_, h3) = refuse_if-eq-ok (below timeout 1) setup_timeout_not_positive _ h2 in
    let (known, h4) =
      refuse_if-eq-ok (not (elem (strip (lower raw_proto)) allowed_syslog_protocols)) proto_invalid
        _ h3 in
    let (profile, profiled, h5) = >>=-eq-ok (normalize_profile raw_profile) _ h4 in
    let (extra, added, h6) = >>=-eq-ok (interface_parts interface) _ h5 in
    (host, port, profile, extra, hosted, ported, profiled, added, ground arith, ground arith)

-- The setup command that is built for any arguments that pass is read as one run of
-- `sh /tmp/openwrt/setup.sh` with the trimmed host, under assignments of exactly the validated
-- profile, port, protocol (which is an allowed one) and, where one is given, interface.
pub build_setup_command-words :
    (raw_host raw_profile interface : Text) (raw_port : ℤ) (raw_proto : Text) (timeout : ℤ)
    (spec : CommandSpec)
    → build_setup_command raw_host raw_profile interface raw_port raw_proto timeout ≡ ok spec
    → (host : Text) × (port : ℕ) × (profile : Text) × (values : List Text) × (validate_host
          (some raw_host)
        ≡ ok host)
      × (validate_port raw_port ≡ ok port)
      × (normalize_profile raw_profile ≡ ok profile)
      × Interfaces interface values
      × (elem (strip (lower raw_proto)) allowed_syslog_protocols ≡ true)
      × (shell_words spec.command ≡ setup_words profile port (strip (lower raw_proto)) values host)
build_setup_command-words raw_host raw_profile interface raw_port raw_proto timeout spec h =
    let (host, port, profile, extra, hosted, ported, profiled, added, allowed, made) =
      setup_fields raw_host raw_profile interface raw_port raw_proto timeout spec h in
    let (values, given, same) = interface_parts_lem interface extra added in
    let proto = strip (lower raw_proto) in
    (
      host,
      port,
      profile,
      values,
      hosted,
      ported,
      profiled,
      given,
      allowed,
      ap shell_words made
          ∙ ap (λ e. shell_words (setup_text (env_parts profile port proto ++ e) host)) same
          ∙ setup_text_words (codes "OPENWRT_MONITOR_PROFILE", profile)
              (more_pairs port proto values) host (names_plain profile port proto values),
    )
