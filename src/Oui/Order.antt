-- ===== src/Oui/Order.antt =====
-- The order of texts is a strict total order.
use openwrt_grafana_monitor.Prelude.{[], arith, false, refl, true, ◌∷◌, ◌≡◌}
use openwrt_grafana_monitor.Text.{Text, text_eq}
use openwrt_grafana_monitor.Oui.Build.{text_lt}

pub text_lt_irrefl : (s : Text) → text_lt s s ≡ false
unfolding text_lt
text_lt_irrefl [] = refl
text_lt_irrefl (c ∷ s) = ground (arith, text_lt_irrefl s)

pub text_lt_trans : (s t u : Text) → text_lt s t ≡ true → text_lt t u ≡ true → text_lt s u ≡ true
unfolding text_lt
text_lt_trans [] [] u h k = cc
text_lt_trans [] (d ∷ t) [] h k = cc
text_lt_trans [] (d ∷ t) (e ∷ u) h k = refl
text_lt_trans (c ∷ s) [] u h k = cc
text_lt_trans (c ∷ s) (d ∷ t) [] h k = cc
text_lt_trans (c ∷ s) (d ∷ t) (e ∷ u) h k = ground (arith, text_lt_trans s t u)

pub text_lt_total : (s t : Text) → text_eq s t ≡ false → text_lt s t ≡ false → text_lt t s ≡ true
unfolding text_lt text_eq
text_lt_total [] [] e h = cc
text_lt_total [] (d ∷ t) e h = cc
text_lt_total (c ∷ s) [] e h = refl
text_lt_total (c ∷ s) (d ∷ t) e h = ground (arith, text_lt_total s t)

pub text_lt-ne : (s t : Text) → text_lt s t ≡ true → text_eq s t ≡ false
unfolding text_lt text_eq
text_lt-ne [] [] h = cc
text_lt-ne [] (d ∷ t) h = refl
text_lt-ne (c ∷ s) [] h = cc
text_lt-ne (c ∷ s) (d ∷ t) h = ground (arith, text_lt-ne s t)
