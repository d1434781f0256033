-- ===== src/Text/Ops.antt =====
-- The methods of `str` that the program calls.
use openwrt_grafana_monitor.Prelude.{
  Bool, List, Option, [], false, if◌then◌else◌, is_empty, length, none, some, suc, true, zero, ℕ,
  ◌&&◌, ◌++◌, ◌+◌, ◌-◌, ◌==◌, ◌||◌, ◌∷◌,
}
use openwrt_grafana_monitor.Text.Codes.{Text}
use openwrt_grafana_monitor.Text.Classes.{is_space, is_upper}

-- `s.strip()`, from the left and from the right
unfoldable pub lstrip : Text → Text
unfolding is_space
lstrip [] = []
lstrip (c ∷ s) = if is_space c then lstrip s else c ∷ s

abbrev strip_back : ℕ → Text → Text
strip_back c [] = if is_space c then [] else c ∷ []
strip_back c (d ∷ t) = c ∷ d ∷ t

unfoldable pub rstrip : Text → Text
unfolding is_space
rstrip [] = []
rstrip (c ∷ s) = strip_back c (rstrip s)

unfoldable pub strip : Text → Text
unfolding lstrip rstrip
strip s = rstrip (lstrip s)

-- `s.lower()`. Of the letters beyond ASCII only two have an ASCII character in their lower case,
-- U+0130 and U+212A, and these are mapped. The others are left as they are: what the program does
-- with a lowered text is to look for ASCII characters in it, which their lower cases do not have.
unfoldable pub lower_char : ℕ → Text
unfolding is_upper
lower_char c =
    if is_upper c
    then (c + 32) ∷ []
    else if c == 0x130
    then b'i' ∷ 0x307 ∷ []
    else if c == 0x212a
    then b'k' ∷ []
    else c ∷ []

unfoldable pub lower : Text → Text
unfolding lower_char
lower [] = []
lower (c ∷ s) = lower_char c ++ lower s

-- `s.startswith(prefix)` and `s.endswith(suffix)`
unfoldable pub starts_with : Text → Text → Bool
starts_with [] s = true
starts_with (p ∷ ps) [] = false
starts_with (p ∷ ps) (c ∷ s) = p == c && starts_with ps s

unfoldable pub last_is : ℕ → Text → Bool
last_is d [] = false
last_is d (c ∷ []) = c == d
last_is d (c ∷ e ∷ s) = last_is d (e ∷ s)

-- `sub in s`
unfoldable pub contains : Text → Text → Bool
unfolding starts_with
contains sub [] = is_empty sub
contains sub (c ∷ s) = starts_with sub (c ∷ s) || contains sub s

unfoldable pub has_char : ℕ → Text → Bool
has_char d [] = false
has_char d (c ∷ s) = c == d || has_char d s

-- `s.count(d)` for one character
unfoldable pub count_char : ℕ → Text → ℕ
count_char d [] = 0
count_char d (c ∷ s) = (if c == d then 1 else 0) + count_char d s

-- `s.split(d)` for one character
abbrev prepend : ℕ → List Text → List Text
prepend c [] = (c ∷ []) ∷ []
prepend c (p ∷ ps) = (c ∷ p) ∷ ps

unfoldable pub split : ℕ → Text → List Text
split d [] = [] ∷ []
split d (c ∷ s) = let rest = split d s in if c == d then [] ∷ rest else prepend c rest

-- `s.split(d, 1)` and `s.rsplit(d, 1)` where the character `d` occurs; `none` where it does not
abbrev cons_left : ℕ → Option (Text × Text) → Option (Text × Text)
cons_left c none = none
cons_left c (some (a, b)) = some (c ∷ a, b)

unfoldable pub split_once : ℕ → Text → Option (Text × Text)
split_once d [] = none
split_once d (c ∷ s) = if c == d then some ([], s) else cons_left c (split_once d s)

abbrev pub split_here : ℕ → ℕ → Text → Option (Text × Text) → Option (Text × Text)
split_here d c s none = if c == d then some ([], s) else none
split_here d c s (some (a, b)) = some (c ∷ a, b)

unfoldable pub rsplit_once : ℕ → Text → Option (Text × Text)
rsplit_once d [] = none
rsplit_once d (c ∷ s) = split_here d c s (rsplit_once d s)

-- `sep.join(parts)`
unfoldable pub join : Text → List Text → Text
join sep [] = []
join sep (p ∷ []) = p
join sep (p ∷ q ∷ ps) = p ++ (sep ++ join sep (q ∷ ps))

-- `s.replace(old, new)` for a text `old` that is not empty: leftmost occurrences that do not
-- overlap. The counter is what is left of the occurrence being skipped.
unfoldable pub replace_from : Text → Text → ℕ → Text → Text
unfolding starts_with
replace_from old new k [] = []
replace_from old new zero (c ∷ s) = elim (starts_with old (c ∷ s)) [
  | true ↦ new ++ replace_from old new (length old - 1) s
  | false ↦ c ∷ replace_from old new zero s
]
replace_from old new (suc k) (c ∷ s) = replace_from old new k s

unfoldable pub replace : Text → Text → Text → Text
unfolding replace_from
replace old new s = replace_from old new zero s

-- `a or b` for texts
unfoldable pub or_else : Text → Text → Text
or_else [] t = t
or_else (c ∷ s) t = c ∷ s

-- `raw or ""` for a text that may be `None`
unfoldable pub or_empty : Option Text → Text
or_empty none = []
or_empty (some s) = s
