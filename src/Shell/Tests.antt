-- ===== src/Shell/Tests.antt =====
-- The reader and the quotes at concrete inputs.
use openwrt_grafana_monitor.Prelude.{[], refl, some, ◌∷◌, ◌≡◌}
use openwrt_grafana_monitor.Text.{codes}
use openwrt_grafana_monitor.Shell.{quote}
use openwrt_grafana_monitor.Shell.Words.{operator, shell_words, word}

words_test :
    shell_words (codes "a 'b c';d\"e\"")
    ≡ some (word (codes "a") ∷ word (codes "b c") ∷ operator b';' ∷ word (codes "de") ∷ [])
unfolding codes shell_words
words_test = refl

quote_test : quote (codes "it's") ≡ codes "'it'\"'\"'s'"
unfolding codes quote
quote_test = refl
