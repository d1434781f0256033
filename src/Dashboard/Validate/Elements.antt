-- ===== src/Dashboard/Validate/Elements.antt =====
-- The checks of `validate_dashboard` on each element.
use openwrt_grafana_monitor.Prelude.{
  Bool, List, Option, [], false, none, not, some, true, ℤ, ◌&&◌, ◌||◌, ◌∷◌,
}
use openwrt_grafana_monitor.Text.{Text, codes, contains, elem, starts_with, text_eq}
use openwrt_grafana_monitor.Dashboard.Json.{Json, get, int_of, str, ◌>>=◌}
use openwrt_grafana_monitor.Dashboard.Walk.{at}
use openwrt_grafana_monitor.Dashboard.Builder.{has_key}
use openwrt_grafana_monitor.Dashboard.Dumps.{dumps}
use openwrt_grafana_monitor.Dashboard.Panels.Base.{panel_key}

-- `assert condition`, in front of what follows
abbrev pub assert_then {ℓ} : {A : Type ℓ} → Bool → Option A → Option A
assert_then false rest = none
assert_then true rest = rest

abbrev unitless : List Text
unitless = codes "text" ∷ codes "logs" ∷ []

abbrev is_short : Json → Bool
is_short (str s) = text_eq s (codes "short")
is_short v = false

abbrev pub unit_ok : Option Json → Bool
unit_ok none = false
unit_ok (some unit) = not (is_short unit)

-- The `unit` of a panel: there is one, and it is not "short".
unfoldable pub check_unit : Json → Json → Bool
unfolding at get elem text_eq
check_unit (str viz) panel_spec =
    elem viz unitless
    || unit_ok (
        at
          (codes "vizConfig"
            ∷ codes "spec"
            ∷ codes "fieldConfig"
            ∷ codes "defaults"
            ∷ codes "unit"
            ∷ [])
          panel_spec)
check_unit viz panel_spec = unit_ok (
    at
      (codes "vizConfig"
        ∷ codes "spec"
        ∷ codes "fieldConfig"
        ∷ codes "defaults"
        ∷ codes "unit"
        ∷ [])
      panel_spec)

-- The checks on one element, with its panel id.
unfoldable pub check_element : Text → Json → Option ℤ
unfolding check_unit at get starts_with panel_key contains dumps
check_element key element = do
  panel_spec ← get (codes "spec") element
  pid ← get (codes "id") panel_spec >>= int_of
  viz ← at (codes "vizConfig" ∷ codes "group" ∷ []) panel_spec
  options ← at (codes "vizConfig" ∷ codes "spec" ∷ codes "options" ∷ []) panel_spec
  assert_then
      (starts_with (codes "panel-") key
        && (text_eq key (panel_key pid)
            && (check_unit viz panel_spec
                && (not (has_key (get (codes "noValue") options))
                    && not (contains (codes "pluginVersion") (dumps element))))))
      (some pid)

unfoldable pub panel_ids : List (Text × Json) → Option (List ℤ)
unfolding check_element
panel_ids [] = some []
panel_ids ((key, element) ∷ elements) =
    check_element key element >>= λ pid. panel_ids elements >>= λ pids. some (pid ∷ pids)
