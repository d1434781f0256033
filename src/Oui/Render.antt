-- ===== src/Oui/Render.antt =====
-- The Lua text of scripts/build_oui_table.py.
use openwrt_grafana_monitor.Prelude.{
  List, [], drop, length, map, suc, take, zero, ℕ, ◌++◌, ◌/◌, ◌∷◌,
}
use openwrt_grafana_monitor.Text.{Text, codes, join, replace, show_ℕ}
use openwrt_grafana_monitor.Oui.Rules.{Rule}
use openwrt_grafana_monitor.Oui.Build.{index_len, prefix_len, record_len}

unfoldable pub lua_string : Text → Text
unfolding replace
lua_string value =
    codes "\""
    ++ (replace (codes "\"") (codes "\\\"") (replace (codes "\\") (codes "\\\\") value)
        ++ codes "\"")

-- `[index[i:i + chunk] for i in range(0, len(index), chunk)]`; the fuel is the length of the text.
unfoldable pub pieces_from : ℕ → ℕ → Text → List Text
pieces_from zero chunk s = []
pieces_from (suc fuel) chunk [] = []
pieces_from (suc fuel) chunk (c ∷ s) =
    take chunk (c ∷ s) ∷ pieces_from fuel chunk (drop chunk (c ∷ s))

abbrev chunk_size : ℕ
chunk_size = 240

unfoldable pub pieces : Text → List Text
unfolding pieces_from
pieces index = pieces_from (length index) chunk_size index

abbrev lines : List Text → Text
lines ls = join (codes "\n") ls

abbrev vendor_lines : List Text → List Text → List Text
vendor_lines [] icons = []
vendor_lines (v ∷ vs) [] = []
vendor_lines (v ∷ vs) (i ∷ is) =
    (codes "  " ++ (lua_string v ++ (codes ", " ++ (lua_string i ++ codes ","))))
    ∷ vendor_lines vs is

abbrev local_line : Rule → Text
local_line r =
    codes "  "
    ++ (lua_string r.pattern_text
        ++ (codes ", "
            ++ (lua_string r.display ++ (codes ", " ++ (lua_string r.icon ++ codes ",")))))

abbrev header_lines : Text → List Text → List Text
header_lines index vendors =
    codes "-- GENERATED by scripts/build_oui_table.py from the IEEE MA-L registry. DO NOT EDIT."
    ∷ codes "--"
    ∷ codes "-- Regenerate with:  python3 -m scripts.build_oui_table"
    ∷ codes "--"
    ∷ (codes "-- `index` is a sorted, fixed-width record table: "
        ++ (show_ℕ prefix_len ++ codes " hex characters of"))
    ∷ (codes "-- 24-bit OUI prefix followed by a "
        ++ (show_ℕ index_len ++ codes "-character base-36 index into"))
    ∷ codes "-- `vendors`. oui.lua binary-searches it. See scripts/build_oui_table.py for why this"
    ∷ codes "-- shape rather than a hash table."
    ∷ codes "--"
    ∷ (codes "-- records: " ++ show_ℕ (length index / record_len))
    ∷ (codes "-- vendors: " ++ show_ℕ (length vendors))
    ∷ []

unfoldable pub render : Text → List Text → List Text → List Rule → Text
unfolding lua_string pieces show_ℕ join
render index vendors icons local_rules = lines (
    header_lines index vendors
    ++ codes ""
      ∷ codes "return {"
      ∷ (codes "  record_len = " ++ (show_ℕ record_len ++ codes ","))
      ∷ (codes "  prefix_len = " ++ (show_ℕ prefix_len ++ codes ","))
      ∷ codes ""
      ∷ codes "  -- flat {display, icon} pairs, 1-based vendor index = (n + 1) / 2"
      ∷ codes "  vendors = {"
      ∷ lines (vendor_lines vendors icons)
      ∷ codes "  },"
      ∷ codes ""
      ∷ codes "  -- flat {prefix, display, icon} triples for locally-administered ranges"
      ∷ codes "  local_ranges = {"
      ∷ lines (map local_line local_rules)
      ∷ codes "  },"
      ∷ codes ""
      ∷ codes "  index = table.concat({"
      ∷ lines (map (λ p. codes "  " ++ (lua_string p ++ codes ",")) (pieces index))
      ∷ codes "  }),"
      ∷ codes "}"
      ∷ codes ""
      ∷ [])
