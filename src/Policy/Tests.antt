-- ===== src/Policy/Tests.antt =====
-- The policy at concrete inputs.
use openwrt_grafana_monitor.Prelude.{[], false, refl, true, ◌++◌, ◌∷◌, ◌≡◌}
use openwrt_grafana_monitor.Text.{codes}
use openwrt_grafana_monitor.Policy.Result.{err, ok, value_error}
use openwrt_grafana_monitor.Policy.Validate.{normalize_profile}
use openwrt_grafana_monitor.Policy.Address.{is_ip_address}
use openwrt_grafana_monitor.Policy.Inventory.{parse_host_port, parse_router_inventory}

inventory_test :
    parse_router_inventory (codes " a=192.168.0.1:2222, b = fe80::1")
    ≡ ok (
        (codes "a", record { name = codes "a"; host = codes "192.168.0.1"; port = 2222 })
        ∷ (codes "b", record { name = codes "b"; host = codes "fe80::1"; port = 22 })
        ∷ [])
unfolding codes parse_router_inventory
inventory_test = refl

ip_test : is_ip_address (codes "::ffff:1.2.3.4") ≡ true
unfolding codes is_ip_address
ip_test = refl

ip_test2 : is_ip_address (codes "1:2:3:4:5:6:7::") ≡ true
unfolding codes is_ip_address
ip_test2 = refl

ip_bad : is_ip_address (codes "1:2:3::4:5:6:7:8") ≡ false
unfolding codes is_ip_address
ip_bad = refl

superscript_port : parse_host_port (codes "a:" ++ 0xb2 ∷ []) ≡ err value_error
unfolding codes parse_host_port
superscript_port = refl

profile_test : normalize_profile (codes "core,,dpi") ≡ ok (codes "core,dpi")
unfolding codes normalize_profile
profile_test = refl
