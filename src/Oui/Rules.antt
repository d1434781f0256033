-- ===== src/Oui/Rules.antt =====
-- The tables of scripts/build_oui_table.py.
use openwrt_grafana_monitor.Prelude.{List, String, [], ◌∷◌}
use openwrt_grafana_monitor.Text.{Text, codes}

-- A row: a part of a registered name, or a prefix, with the name and the icon that are shown.
pub record Rule : Type 0 where
  pub pattern_text : Text
  pub display : Text
  pub icon : Text

unfoldable pub rule : String → String → String → Rule
rule p d i = record { pattern_text = codes p; display = codes d; icon = codes i }

-- `RULES`
abbrev pub rules : List Rule
rules =
    rule "raspberry pi" "Raspberry Pi" "processor"
    ∷ rule "proxmox" "Proxmox" "server"
    ∷ rule "vmware" "VMware" "server"
    ∷ rule "parallels" "Parallels" "server"
    ∷ rule "oracle" "Oracle" "server"
    ∷ rule "pcs systemtechnik" "VirtualBox" "server"
    ∷ rule "synology" "Synology" "database"
    ∷ rule "qnap" "QNAP" "database"
    ∷ rule "western digital" "Western Digital" "hdd"
    ∷ rule "seagate" "Seagate" "hdd"
    ∷ rule "sandisk" "SanDisk" "hdd"
    ∷ rule "kingston" "Kingston" "hdd"
    ∷ rule "apple" "Apple" "apple"
    ∷ rule "samsung" "Samsung" "mobile-android"
    ∷ rule "guangdong oppo" "OPPO" "mobile-android"
    ∷ rule "oneplus" "OnePlus" "mobile-android"
    ∷ rule "vivo mobile" "vivo" "mobile-android"
    ∷ rule "xiaomi" "Xiaomi" "mobile-android"
    ∷ rule "honor device" "HONOR" "mobile-android"
    ∷ rule "huawei device" "Huawei" "mobile-android"
    ∷ rule "huawei" "Huawei" "mobile-android"
    ∷ rule "motorola" "Motorola" "mobile-android"
    ∷ rule "htc" "HTC" "mobile-android"
    ∷ rule "google" "Google" "android"
    ∷ rule "microsoft" "Microsoft" "desktop"
    ∷ rule "dell" "Dell" "desktop"
    ∷ rule "hewlett packard enterprise" "HPE" "server"
    ∷ rule "hewlett packard" "HP" "desktop"
    ∷ rule "lenovo" "Lenovo" "laptop"
    ∷ rule "hp inc" "HP" "desktop"
    ∷ rule "asustek" "ASUS" "desktop"
    ∷ rule "asrock" "ASRock" "desktop"
    ∷ rule "giga-byte" "GIGABYTE" "desktop"
    ∷ rule "gigabyte" "GIGABYTE" "desktop"
    ∷ rule "micro-star" "MSI" "desktop"
    ∷ rule "intel" "Intel" "processor"
    ∷ rule "nvidia" "NVIDIA" "processor"
    ∷ rule "bitland" "Bitland" "desktop"
    ∷ rule "wistron" "Wistron" "laptop"
    ∷ rule "quanta" "Quanta" "laptop"
    ∷ rule "compal" "Compal" "laptop"
    ∷ rule "pegatron" "Pegatron" "desktop"
    ∷ rule "hon hai" "Foxconn" "desktop"
    ∷ rule "foxconn" "Foxconn" "desktop"
    ∷ rule "azurewave" "AzureWave" "wifi"
    ∷ rule "liteon" "Lite-On" "laptop"
    ∷ rule "universal global" "Universal Global" "wifi"
    ∷ rule "tp-link" "TP-Link" "sitemap"
    ∷ rule "tplink" "TP-Link" "sitemap"
    ∷ rule "ubiquiti" "Ubiquiti" "sitemap"
    ∷ rule "ubnt" "Ubiquiti" "sitemap"
    ∷ rule "mikrotik" "MikroTik" "sitemap"
    ∷ rule "netgear" "NETGEAR" "sitemap"
    ∷ rule "d-link" "D-Link" "sitemap"
    ∷ rule "linksys" "Linksys" "sitemap"
    ∷ rule "zyxel" "Zyxel" "sitemap"
    ∷ rule "draytek" "DrayTek" "sitemap"
    ∷ rule "avm gmbh" "AVM FRITZ!" "sitemap"
    ∷ rule "sagemcom" "Sagemcom" "cloud"
    ∷ rule "technicolor" "Technicolor" "cloud"
    ∷ rule "arris" "ARRIS" "cloud"
    ∷ rule "netcomm" "NetComm" "cloud"
    ∷ rule "vodafone" "Vodafone" "cloud"
    ∷ rule "juniper" "Juniper" "sitemap"
    ∷ rule "aruba" "Aruba" "sitemap"
    ∷ rule "meraki" "Meraki" "sitemap"
    ∷ rule "aerohive" "Aerohive" "sitemap"
    ∷ rule "extreme networks" "Extreme" "sitemap"
    ∷ rule "fortinet" "Fortinet" "shield"
    ∷ rule "sophos" "Sophos" "shield"
    ∷ rule "cambium" "Cambium" "sitemap"
    ∷ rule "engenius" "EnGenius" "sitemap"
    ∷ rule "edimax" "Edimax" "sitemap"
    ∷ rule "buffalo" "Buffalo" "sitemap"
    ∷ rule "belkin" "Belkin" "sitemap"
    ∷ rule "eero" "eero" "sitemap"
    ∷ rule "ruckus" "Ruckus" "sitemap"
    ∷ rule "cisco" "Cisco" "sitemap"
    ∷ rule "new h3c" "H3C" "sitemap"
    ∷ rule "arista" "Arista" "sitemap"
    ∷ rule "palo alto" "Palo Alto" "shield"
    ∷ rule "avaya" "Avaya" "microphone"
    ∷ rule "nortel" "Nortel" "sitemap"
    ∷ rule "mellanox" "Mellanox" "server"
    ∷ rule "commscope" "CommScope" "cloud"
    ∷ rule "vantiva" "Vantiva" "cloud"
    ∷ rule "arcadyan" "Arcadyan" "cloud"
    ∷ rule "askey" "Askey" "cloud"
    ∷ rule "fiberhome" "FiberHome" "cloud"
    ∷ rule "sky uk" "Sky" "cloud"
    ∷ rule "nokia" "Nokia" "cloud"
    ∷ rule "zte" "ZTE" "cloud"
    ∷ rule "tct mobile" "Alcatel" "mobile-android"
    ∷ rule "tcl" "TCL" "monitor"
    ∷ rule "espressif" "Espressif" "lamp"
    ∷ rule "tuya" "Tuya" "lamp"
    ∷ rule "itead" "Sonoff" "lamp"
    ∷ rule "shelly" "Shelly" "lamp"
    ∷ rule "allterco" "Shelly" "lamp"
    ∷ rule "lumi" "Aqara" "lamp"
    ∷ rule "aqara" "Aqara" "lamp"
    ∷ rule "signify" "Philips Hue" "lamp"
    ∷ rule "philips" "Philips" "lamp"
    ∷ rule "ikea" "IKEA" "lamp"
    ∷ rule "nest labs" "Nest" "home"
    ∷ rule "ring llc" "Ring" "camera"
    ∷ rule "wyze" "Wyze" "camera"
    ∷ rule "reolink" "Reolink" "camera"
    ∷ rule "hikvision" "Hikvision" "camera"
    ∷ rule "dahua" "Dahua" "camera"
    ∷ rule "roborock" "Roborock" "home"
    ∷ rule "ecovacs" "Ecovacs" "home"
    ∷ rule "dyson" "Dyson" "home"
    ∷ rule "miele" "Miele" "home"
    ∷ rule "electrolux" "Electrolux" "home"
    ∷ rule "bosch" "Bosch" "home"
    ∷ rule "siemens" "Siemens" "home"
    ∷ rule "tesla" "Tesla" "bolt"
    ∷ rule "nordic semiconductor" "Nordic" "lamp"
    ∷ rule "silicon lab" "Silicon Labs" "lamp"
    ∷ rule "texas instrument" "Texas Instruments" "processor"
    ∷ rule "murata" "Murata" "wifi"
    ∷ rule "realtek" "Realtek" "processor"
    ∷ rule "mediatek" "MediaTek" "processor"
    ∷ rule "qualcomm" "Qualcomm" "processor"
    ∷ rule "broadcom" "Broadcom" "processor"
    ∷ rule "amazon" "Amazon" "volume"
    ∷ rule "sonos" "Sonos" "volume"
    ∷ rule "bose" "Bose" "volume"
    ∷ rule "harman" "Harman" "volume"
    ∷ rule "denon" "Denon" "volume"
    ∷ rule "marantz" "Marantz" "volume"
    ∷ rule "yamaha" "Yamaha" "volume"
    ∷ rule "pioneer" "Pioneer" "volume"
    ∷ rule "onkyo" "Onkyo" "volume"
    ∷ rule "roku" "Roku" "monitor"
    ∷ rule "nintendo" "Nintendo" "game-structure"
    ∷ rule "sony" "Sony" "game-structure"
    ∷ rule "lg innotek" "LG" "monitor"
    ∷ rule "lg electron" "LG" "monitor"
    ∷ rule "skyworth" "Skyworth" "monitor"
    ∷ rule "realme" "realme" "mobile-android"
    ∷ rule "tecno mobile" "TECNO" "mobile-android"
    ∷ rule "itel mobile" "itel" "mobile-android"
    ∷ rule "infinix" "Infinix" "mobile-android"
    ∷ rule "quectel" "Quectel" "sim-card"
    ∷ rule "midea" "Midea" "home"
    ∷ rule "cloud network technology" "Foxconn" "desktop"
    ∷ rule "panasonic" "Panasonic" "monitor"
    ∷ rule "sharp" "Sharp" "monitor"
    ∷ rule "toshiba" "Toshiba" "monitor"
    ∷ rule "vestel" "Vestel" "monitor"
    ∷ rule "tp-vision" "TP Vision" "monitor"
    ∷ rule "garmin" "Garmin" "clock"
    ∷ rule "fitbit" "Fitbit" "clock"
    ∷ rule "withings" "Withings" "clock"
    ∷ rule "logitech" "Logitech" "headphones"
    ∷ rule "razer" "Razer" "headphones"
    ∷ rule "steelseries" "SteelSeries" "headphones"
    ∷ rule "corsair" "Corsair" "headphones"
    ∷ rule "brother" "Brother" "print"
    ∷ rule "canon" "Canon" "print"
    ∷ rule "epson" "Epson" "print"
    ∷ rule "ricoh" "Ricoh" "print"
    ∷ rule "xerox" "Xerox" "print"
    ∷ rule "yealink" "Yealink" "microphone"
    ∷ rule "grandstream" "Grandstream" "microphone"
    ∷ rule "qingdao intelligent" "Qingdao Intelligent" "cube"
    ∷ []

-- `LOCAL_RULES`
abbrev pub local_rules : List Rule
local_rules =
    rule "5254" "QEMU/KVM" "server"
    ∷ rule "0242" "Docker" "server"
    ∷ rule "0a0027" "VirtualBox" "server"
    ∷ []
