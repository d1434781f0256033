-- ===== src/Dashboard/Validate/Variables.antt =====
-- The checks of `validate_dashboard` on the variables.
use openwrt_grafana_monitor.Prelude.{
  Bool, List, Option, [], all, if◌then◌else◌, leb, some, ℕ, ◌&&◌, ◌++◌, ◌==◌, ◌||◌, ◌∷◌,
}
use openwrt_grafana_monitor.Text.{Text, codes, elem}
use openwrt_grafana_monitor.Dashboard.Json.{Json, text_of, ◌>>=◌}
use openwrt_grafana_monitor.Dashboard.Walk.{at}

-- `[A-Za-z_]` and `[A-Za-z0-9_]`
abbrev is_name_start : ℕ → Bool
is_name_start c = leb 65 c && leb c 90 || leb 97 c && leb c 122 || c == 95

abbrev is_name_char : ℕ → Bool
is_name_char c = is_name_start c || leb 48 c && leb c 57

unfoldable pub name_prefix : Text → Text
name_prefix [] = []
name_prefix (c ∷ s) = let rest = name_prefix s in if is_name_char c then c ∷ rest else []

abbrev after_brace : Text → Text
after_brace [] = []
after_brace (c ∷ s) = if c == b'{' then s else c ∷ s

abbrev named : Text → List Text
named [] = []
named (c ∷ s) = if is_name_start c then (c ∷ name_prefix s) ∷ [] else []

-- `var_pattern.finditer(s)`, by the names. No match holds another dollar, so that the search may go on
-- behind the dollar.
unfoldable pub vars_in : Text → List Text
unfolding name_prefix
vars_in [] = []
vars_in (c ∷ s) = let rest = vars_in s in if c == b'$' then named (after_brace s) ++ rest else rest

unfoldable pub vars_of : List Text → List Text
unfolding vars_in
vars_of [] = []
vars_of (s ∷ ss) = vars_in s ++ vars_of ss

abbrev globals_allowed : List Text
globals_allowed =
    codes "__rate_interval"
    ∷ codes "__range"
    ∷ codes "__from"
    ∷ codes "__to"
    ∷ codes "__all"
    ∷ codes "__value"
    ∷ codes "__interval"
    ∷ codes "__auto"
    ∷ []

abbrev exempt_unused : List Text
exempt_unused = codes "DS_PROMETHEUS" ∷ codes "DS_LOKI" ∷ []

-- `{v["spec"]["name"] for v in spec["variables"]}`
unfoldable pub defined_vars : List Json → Option (List Text)
unfolding at
defined_vars [] = some []
defined_vars (v ∷ vs) = do
  name ← at (codes "spec" ∷ codes "name" ∷ []) v >>= text_of
  names ← defined_vars vs
  some (name ∷ names)

-- Every variable that is named is defined or one of Grafana's, and every one that is defined is named
-- or a data source.
unfoldable pub variables_ok : List Text → List Text → Bool
unfolding all elem
variables_ok defined referenced =
    all (λ v. elem v defined || elem v globals_allowed) referenced
    && all (λ v. elem v referenced || elem v exempt_unused) defined
