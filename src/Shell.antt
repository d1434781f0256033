-- ===== src/Shell.antt =====
-- `shlex.quote`, by which mcp_server/core.py puts arguments into shell commands, and how a POSIX
-- shell reads a command line.
pub mod Words
pub mod Quoting
mod Tests
use openwrt_grafana_monitor.Prelude.{Bool, [], all, if◌then◌else◌, ℕ, ◌++◌, ◌==◌, ◌||◌, ◌∷◌}
use openwrt_grafana_monitor.Text.{Text, is_word, replace}

-- The characters that `shlex.quote` leaves bare: `[\w@%+=:,./-]` under `re.ASCII`.
unfoldable pub is_bare : ℕ → Bool
unfolding is_word
is_bare c =
    is_word c
    || c == b'@'
    || c == b'%'
    || c == b'+'
    || c == b'='
    || c == b':'
    || c == b','
    || c == b'.'
    || c == b'/'
    || c == b'-'

abbrev quote_mark : Text
quote_mark = b'\'' ∷ []

-- A quote inside single quotes: `'"'"'`.
abbrev escaped_mark : Text
escaped_mark = b'\'' ∷ b'"' ∷ b'\'' ∷ b'"' ∷ b'\'' ∷ []

-- `shlex.quote(s)`
unfoldable pub quote : Text → Text
unfolding is_bare all replace
quote [] = b'\'' ∷ b'\'' ∷ []
quote (c ∷ s) =
    if all is_bare (c ∷ s)
    then c ∷ s
    else quote_mark ++ (replace quote_mark escaped_mark (c ∷ s) ++ quote_mark)
