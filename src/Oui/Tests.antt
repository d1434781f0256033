-- ===== src/Oui/Tests.antt =====
-- The classification and the index at concrete inputs.
use openwrt_grafana_monitor.Prelude.{List, [], arith, false, length, refl, some, ◌∷◌, ◌≡◌, ◌≢◌}
use openwrt_grafana_monitor.Text.{Text, codes, contains, lower}
use openwrt_grafana_monitor.Oui.Build.{
  Hit, RegistryRow, Table, base36, build, built, classify, index_len, index_overflow, load_rows,
  stopped,
}
use openwrt_grafana_monitor.Oui.Lookup.{
  entry, exhausted, hex_only, is_local, lookup_mac, search_loop, tonumber36,
}
use openwrt_grafana_monitor.Oui.Lookup.Registry.{lookup_mac-build, name_of}
use openwrt_grafana_monitor.Oui.Sorted.{last_match}
use openwrt_grafana_monitor.Oui.Lookup.Search.{pow2, search_loop-ends}
use openwrt_grafana_monitor.Oui.Lookup
use openwrt_grafana_monitor.Oui.Lookup.Records.{tonumber36-base36}
use openwrt_grafana_monitor.Oui.Index.{base36-overflow}
use openwrt_grafana_monitor.Oui.Hidden.{classify-other}
use openwrt_grafana_monitor.Oui.Rules.{rule}

base36_test : base36 1295 ≡ built (codes "zz")
unfolding codes base36
base36_test = refl

classify_test : classify (codes "Huawei Device Co.") ≡ some (codes "Huawei", codes "mobile-android")
unfolding codes classify rule
classify_test = refl

overflow_example : base36 1296 ≡ stopped index_overflow
overflow_example = base36-overflow 1296 (omega arith)

classify_example :
    (hit : Hit) × (classify (codes "Qingdao Intelligent Co.") ≡ some hit)
    × (hit.0 ≢ codes "Qingdao Intelligent")
unfolding codes contains lower
classify_example = classify-other (codes "Qingdao Intelligent Co.") refl

abbrev registry_rows : List RegistryRow
registry_rows =
    record {
      registry = some (codes "MA-L");
      assignment = some (codes "0CB5B3");
      organization = some (codes "Huawei Device Co.");
    }
    ∷ record {
      registry = some (codes "MA-M");
      assignment = some (codes "0CB5B30");
      organization = some (codes "Apple");
    }
    ∷ []

abbrev example_table : Table
example_table = record {
  index = codes "0cb5b301";
  vendors = codes "Huawei" ∷ [];
  icons = codes "mobile-android" ∷ [];
  matched = 1;
}

abbrev example_mac : Text
example_mac = codes "0C:B5:B3:11:22:33"

lookup_test : lookup_mac (some (example_table, [])) example_mac ≡ record {
  vendor = some (codes "Huawei");
  icon = some (codes "mobile-android");
  is_private = false;
}
unfolding lookup_mac codes hex_only is_local Lookup.search entry
lookup_test = refl

lookup_mac_example :
    (lookup_mac (some (example_table, [])) example_mac).vendor
    ≡ name_of (last_match (codes "0cb5b3") (load_rows registry_rows))
unfolding build load_rows hex_only is_local codes rule
lookup_mac_example =
    lookup_mac-build registry_rows example_table [] example_mac (codes "0cb5b3112233") refl refl
      refl

search_loop_example : search_loop example_table.index (codes "0cb5b3") 2 0 1 ≢ exhausted
unfolding pow2
search_loop_example = search_loop-ends example_table.index (codes "0cb5b3") 1 0 1 (omega arith)

tonumber36_example :
    (out : Text) × (base36 255 ≡ built out) × (length out ≡ index_len) × (tonumber36 out ≡ some 255)
tonumber36_example = tonumber36-base36 255 (omega arith)
