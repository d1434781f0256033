-- ===== src/Shell/Words.antt =====
-- How a POSIX shell splits a command line into words and operators, as far as the commands of
-- this program need it. It is written from the shell's rules and not from `shlex.quote`.
use openwrt_grafana_monitor.Prelude.{
  Bool, List, Option, [], if◌then◌else◌, none, some, ℕ, ◌++◌, ◌==◌, ◌||◌, ◌∷◌,
}
use openwrt_grafana_monitor.Text.{Text}

pub data Token : Type 0 where
  word : Text → Token
  operator : ℕ → Token

-- Where the reader stands: outside quotes, in single quotes, in double quotes.
pub data Mode : Type 0 where
  bare single double : Mode

-- Characters that mean something to the shell outside quotes, beyond blanks, the quotes, and the
-- operators `;`, `|` and the end of a line (`||` is read as two operators).
-- The reader refuses them. Patterns (`[`, `*`, `?`) are read as characters: expanding them is no
-- part of the splitting.
unfoldable pub is_special : ℕ → Bool
is_special c =
    c == b'$'
    || c == b'`'
    || c == b'\\'
    || c == b'&'
    || c == b'<'
    || c == b'>'
    || c == b'('
    || c == b')'
    || c == b'#'
    || c == b'~'
    || c == b'{'
    || c == b'}'
    || c == b'!'

unfoldable pub is_blank : ℕ → Bool
is_blank c = c == b' ' || c == 9

unfoldable pub is_end : ℕ → Bool
is_end c = c == b';' || c == b'|' || c == 10

-- Inside double quotes `$`, a backquote and a backslash stay special.
unfoldable pub is_active : ℕ → Bool
is_active c = c == b'$' || c == b'`' || c == b'\\'

-- The word that is being read, if one has begun.
abbrev pub grown : Option Text → Text
grown none = []
grown (some w) = w

abbrev pub push : Option Text → ℕ → Option Text
push w c = some (grown w ++ c ∷ [])

abbrev pub emit : Option Text → Option (List Token) → Option (List Token)
emit none ts = ts
emit (some w) none = none
emit (some w) (some ts) = some (word w ∷ ts)

abbrev pub operate : ℕ → Option (List Token) → Option (List Token)
operate c none = none
operate c (some ts) = some (operator c ∷ ts)

-- `none` where a quote is left open or a special character stands bare.
unfoldable pub read : Mode → Option Text → Text → Option (List Token)
unfolding is_special is_blank is_end is_active
read bare w [] = emit w (some [])
read single w [] = none
read double w [] = none
read bare w (c ∷ s) =
    let blank = emit w (read bare none s) in
    let end = emit w (operate c (read bare none s)) in
    let quoted = read single (some (grown w)) s in
    let doubled = read double (some (grown w)) s in
    let more = read bare (push w c) s in
    if is_blank c
    then blank
    else if is_end c
    then end
    else if c == b'\''
    then quoted
    else if c == b'"'
    then doubled
    else if is_special c
    then none
    else more
read single w (c ∷ s) =
    let close = read bare w s in
    let more = read single (push w c) s in if c == b'\'' then close else more
read double w (c ∷ s) =
    let close = read bare w s in
    let more = read double (push w c) s in
    if c == b'"' then close else if is_active c then none else more

unfoldable pub shell_words : Text → Option (List Token)
unfolding read
shell_words s = read bare none s
