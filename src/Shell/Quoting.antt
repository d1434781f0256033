-- ===== src/Shell/Quoting.antt =====
-- A quoted text is read back by the shell as exactly that text.
use openwrt_grafana_monitor.Prelude.{
  All, All-mono, Bool, Bool-cases, Option, [], all, all-All, all_below, all_below_sound, ap,
  append-nil, append_assoc, arith, implies, inl, inr, none, not, refl, some, true, ℕ, ◌++◌, ◌<◌,
  ◌==◌, ◌||◌, ◌∙◌, ◌∷◌, ◌≡◌,
}
use openwrt_grafana_monitor.Text.{Text, replace_from}
use openwrt_grafana_monitor.Shell.Words.{bare, grown, is_blank, is_end, is_special, read, single}
use openwrt_grafana_monitor.Shell.{escaped_mark, is_bare, quote, quote_mark}

-- What the shell reads as an ordinary character of a word.
unfoldable pub is_plain : ℕ → Bool
unfolding is_special is_blank is_end
is_plain c = not (is_blank c || is_end c || c == b'\'' || c == b'"' || is_special c)

is_bare-lt : (c : ℕ) → is_bare c ≡ true → c < 128
unfolding is_bare
is_bare-lt c h = ground arith

bare_table : all_below 128 (λ c. not (is_bare c) || is_plain c) ≡ true
unfolding all_below is_bare is_plain
bare_table = refl

is_bare-is_plain : (c : ℕ) → is_bare c ≡ true → is_plain c ≡ true
is_bare-is_plain c h =
    implies _ _
      (all_below_sound 128 (λ d. not (is_bare d) || is_plain d) c bare_table (is_bare-lt c h)) h

pub read_plain_char :
    (w : Text) (c : ℕ) (s : Text)
    → is_plain c ≡ true
    → read bare (some w) (c ∷ s) ≡ read bare (some (w ++ c ∷ [])) s
unfolding read is_plain
read_plain_char w c s h = ground arith

pub read_plain :
    (w s rest : Text)
    → All (λ c. is_plain c ≡ true) s
    → read bare (some w) (s ++ rest) ≡ read bare (some (w ++ s)) rest
read_plain w [] rest h = rw append-nil
read_plain w (c ∷ s) rest (p, h) =
    read_plain_char w c (s ++ rest) p
    ∙ read_plain (w ++ c ∷ []) s rest h
    ∙ ap (λ v. read bare (some v) rest) (append_assoc w (c ∷ []) s)

-- A bare first character begins a word.
read_first :
    (c : ℕ) (s : Text) → is_plain c ≡ true → read bare none (c ∷ s) ≡ read bare (some []) (c ∷ s)
unfolding read is_plain
read_first c s h = ground arith

-- The inside of a quoted text, with the quote that closes it.
read_quoted :
    (w s rest : Text)
    → read single (some w) (replace_from quote_mark escaped_mark 0 s ++ (quote_mark ++ rest))
      ≡ read bare (some (w ++ s)) rest
unfolding read replace_from
read_quoted w [] rest = rw append-nil
read_quoted w (c ∷ s) rest =
    ground (arith, read_quoted (w ++ c ∷ []) s rest, append_assoc w (c ∷ []) s)

-- A word of bare characters, at the start of a word or inside one.
pub read_word :
    (w : Option Text) (c : ℕ) (s rest : Text)
    → All (λ d. is_plain d ≡ true) (c ∷ s)
    → read bare w ((c ∷ s) ++ rest) ≡ read bare (some (grown w ++ c ∷ s)) rest
read_word none c s rest h = read_first c (s ++ rest) h.0 ∙ read_plain [] (c ∷ s) rest h
read_word (some w) c s rest h = read_plain w (c ∷ s) rest h

-- A quote outside quotes opens single quotes.
read_open : (w : Option Text) (s : Text) → read bare w (b'\'' ∷ s) ≡ read single (some (grown w)) s
unfolding read is_special is_blank is_end
read_open w s = refl

read_empty_quotes :
    (w : Option Text) (rest : Text)
    → read bare w (b'\'' ∷ b'\'' ∷ rest) ≡ read bare (some (grown w)) rest
unfolding read is_special is_blank is_end
read_empty_quotes w rest = refl

all_plain : (s : Text) → all is_bare s ≡ true → All (λ c. is_plain c ≡ true) s
all_plain s h =
    All-mono (λ c. is_bare c ≡ true) (λ c. is_plain c ≡ true) is_bare-is_plain s
      (all-All is_bare s h)

-- Whatever the text, the shell reads a quoted text as the text itself, and goes on after it.
pub read-quote :
    (w : Option Text) (s rest : Text)
    → read bare w (quote s ++ rest) ≡ read bare (some (grown w ++ s)) rest
unfolding quote
read-quote w [] rest = rw append-nil (read_empty_quotes w rest)
read-quote w (c ∷ s) rest = elim (Bool-cases (all is_bare (c ∷ s))) [
  | inl e ↦ rw e (read_word w c s rest (all_plain (c ∷ s) e))
  | inr e ↦ rw e (
      ap (λ t. read bare w (b'\'' ∷ t))
        (append_assoc (replace_from quote_mark escaped_mark 0 (c ∷ s)) quote_mark rest)
      ∙ read_open w _
      ∙ read_quoted (grown w) (c ∷ s) rest)
]
