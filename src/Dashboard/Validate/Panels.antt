-- ===== src/Dashboard/Validate/Panels.antt =====
-- Each builder of panels makes elements that pass the checks of `validate_dashboard`.
use openwrt_grafana_monitor.Prelude.{
  Bool, Bool-cases, List, Option, [], ap, arith, false, inl, inr, not, refl, some, true, ℤ, ◌&&◌,
  ◌++◌, ◌||◌, ◌∙◌, ◌∷◌, ◌≡◌,
}
use openwrt_grafana_monitor.Text.{
  Text, codes, contains, lookup, show_ℤ, starts_with, text_eq, text_eq_refl, text_eq→eq,
}
use openwrt_grafana_monitor.Dashboard.Validate.Elements.{assert_then, check_element, unit_ok}
use openwrt_grafana_monitor.Dashboard.Json.{Dict, Json, entries, fields, put, str, update, ◌>>=◌}
use openwrt_grafana_monitor.Dashboard.Panels.Base.{base_defaults, panel, panel_key}
use openwrt_grafana_monitor.Dashboard.Dumps.{dumps}
use openwrt_grafana_monitor.Dashboard.Builder.{has_key}

entries-fields : (d : Dict) → entries (fields d) ≡ d
entries-fields [] = refl
entries-fields ((k, v) ∷ d) = ap (λ e. (k, v) ∷ e) (entries-fields d)

put-keeps :
    (p k : Text) (v : Json) (d : Dict) → text_eq k p ≡ false → lookup p (put k v d) ≡ lookup p d
unfolding lookup put
put-keeps p k v [] h = ground arith
put-keeps p k v ((j, w) ∷ d) h = elim (Bool-cases (text_eq j k)) [
  | inl q ↦ ground (arith, ap (λ t. text_eq t p) (text_eq→eq j k q))
  | inr q ↦ ground (arith, put-keeps p k v d h)
]

-- What a dictionary has under a key stays, where the update has nothing under it.
update-keeps :
    (p : Text) (d e : Dict) → has_key (lookup p e) ≡ false → lookup p (update d e) ≡ lookup p d
unfolding update lookup
update-keeps p d [] h = refl
update-keeps p d ((k, v) ∷ e) h =
    update-keeps p (put k v d) e (ground arith) ∙ put-keeps p k v d (ground arith)

starts_with-append : (p s : Text) → starts_with p (p ++ s) ≡ true
unfolding starts_with
starts_with-append [] s = refl
starts_with-append (c ∷ p) s = ground (arith, starts_with-append p s)

abbrev checks_pass : Bool → Bool → Bool → Bool → Bool
checks_pass a b c d = a && (b && (not c && not d))

pass :
    (a b c d : Bool) (pid : ℤ)
    → a ≡ true
    → b ≡ true
    → c ≡ false
    → d ≡ false
    → assert_then (checks_pass a b c d) (some pid) ≡ some pid
pass a b c d pid x y z w = cc

unit_fine :
    (b : Bool) (o : Option Json) (unit : Text)
    → o ≡ some (str unit)
    → text_eq unit (codes "short") ≡ false
    → (b || unit_ok (o >>= λ v. some v)) ≡ true
unit_fine b o unit e h = rw e (ground arith)

unit_at :
    (unit viz : Text) (d : Dict)
    → has_key (lookup (codes "unit") d) ≡ false
    → lookup (codes "unit") (entries (fields (update (base_defaults unit viz) d))) ≡ some (str unit)
unfolding lookup codes text_eq
unit_at unit viz d h =
    ap (lookup (codes "unit")) (entries-fields (update (base_defaults unit viz) d))
    ∙ update-keeps (codes "unit") (base_defaults unit viz) d h

-- An element of `panel` passes the checks on elements, with its own id, where its unit is not "short",
-- its own defaults leave the unit alone, its options have no `noValue`, and its text does not mention
-- `pluginVersion`.
pub panel-check_element :
    (pid : ℤ) (title viz : Text) (queries : List Json) (unit desc : Text)
    (options field_defaults : Dict) (overrides transformations links : List Json)
    → text_eq unit (codes "short") ≡ false
    → has_key (lookup (codes "unit") field_defaults) ≡ false
    → has_key (lookup (codes "noValue") options) ≡ false
    → contains (codes "pluginVersion") (
        dumps
          (panel pid title viz queries unit desc options field_defaults overrides transformations
            links).1)
      ≡ false
    → check_element
        (panel_key pid)
        (panel pid title viz queries unit desc options field_defaults overrides transformations
          links).1
      ≡ some pid
unfolding check_element panel codes
panel-check_element pid title viz queries unit desc options field_defaults overrides transformations
      links short own no_value plugin =
    pass _ _ _ _ pid (text_eq_refl (show_ℤ pid))
      (unit_fine _ _ unit (unit_at unit viz field_defaults own) short)
      (ap (λ d. has_key (lookup (codes "noValue") d)) (entries-fields options) ∙ no_value) plugin
