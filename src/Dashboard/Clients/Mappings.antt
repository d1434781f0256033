-- ===== src/Dashboard/Clients/Mappings.antt =====
-- The value mappings of scripts/build_openwrt_clients_dashboard.py.
use openwrt_grafana_monitor.Prelude.{List, [], ◌∷◌}
use openwrt_grafana_monitor.Dashboard.Json.{Json, dict, lit, number, ◌⇒◌}

abbrev pub client_status_mappings : List Json
client_status_mappings =
    (dict (
      "type" ⇒ (lit "value")
      ∷ "options" ⇒ (
          dict (
            "1" ⇒ (
              dict ("text" ⇒ (lit "Online") ∷ "color" ⇒ (lit "green") ∷ "index" ⇒ (number 0) ∷ []))
            ∷ []))
      ∷ []))
    ∷ (dict (
        "type" ⇒ (lit "value")
        ∷ "options" ⇒ (
            dict (
              "0" ⇒ (
                dict
                  ("text" ⇒ (lit "Offline") ∷ "color" ⇒ (lit "gray") ∷ "index" ⇒ (number 1) ∷ []))
              ∷ []))
        ∷ []))
    ∷ (dict (
        "type" ⇒ (lit "special")
        ∷ "options" ⇒ (
            dict (
              "match" ⇒ (lit "null")
              ∷ "result" ⇒ (
                  dict (
                    "text" ⇒ (lit "Unavailable")
                    ∷ "color" ⇒ (lit "gray")
                    ∷ "index" ⇒ (number 2)
                    ∷ []))
              ∷ []))
        ∷ []))
    ∷ []

abbrev pub truncation_mappings : List Json
truncation_mappings =
    (dict (
      "type" ⇒ (lit "value")
      ∷ "options" ⇒ (
          dict (
            "0" ⇒ (
              dict
                ("text" ⇒ (lit "Complete") ∷ "color" ⇒ (lit "green") ∷ "index" ⇒ (number 0) ∷ []))
            ∷ []))
      ∷ []))
    ∷ (dict (
        "type" ⇒ (lit "value")
        ∷ "options" ⇒ (
            dict (
              "1" ⇒ (
                dict
                  ("text" ⇒ (lit "Truncated") ∷ "color" ⇒ (lit "red") ∷ "index" ⇒ (number 1) ∷ []))
              ∷ []))
        ∷ []))
    ∷ (dict (
        "type" ⇒ (lit "special")
        ∷ "options" ⇒ (
            dict (
              "match" ⇒ (lit "null")
              ∷ "result" ⇒ (
                  dict (
                    "text" ⇒ (lit "Not collected")
                    ∷ "color" ⇒ (lit "gray")
                    ∷ "index" ⇒ (number 2)
                    ∷ []))
              ∷ []))
        ∷ []))
    ∷ []

abbrev pub offload_mappings : List Json
offload_mappings =
    (dict (
      "type" ⇒ (lit "value")
      ∷ "options" ⇒ (
          dict (
            "0" ⇒ (
              dict (
                "text" ⇒ (lit "Accounting OK")
                ∷ "color" ⇒ (lit "green")
                ∷ "index" ⇒ (number 0)
                ∷ []))
            ∷ []))
      ∷ []))
    ∷ (dict (
        "type" ⇒ (lit "value")
        ∷ "options" ⇒ (
            dict (
              "1" ⇒ (
                dict (
                  "text" ⇒ (lit "Accounting unreliable")
                  ∷ "color" ⇒ (lit "red")
                  ∷ "index" ⇒ (number 1)
                  ∷ []))
              ∷ []))
        ∷ []))
    ∷ (dict (
        "type" ⇒ (lit "special")
        ∷ "options" ⇒ (
            dict (
              "match" ⇒ (lit "null")
              ∷ "result" ⇒ (
                  dict (
                    "text" ⇒ (lit "Unavailable")
                    ∷ "color" ⇒ (lit "gray")
                    ∷ "index" ⇒ (number 2)
                    ∷ []))
              ∷ []))
        ∷ []))
    ∷ []

abbrev pub traffic_state_mappings : List Json
traffic_state_mappings =
    (dict (
      "type" ⇒ (lit "value")
      ∷ "options" ⇒ (
          dict (
            "0" ⇒ (
              dict (
                "text" ⇒ (lit "Not collected")
                ∷ "color" ⇒ (lit "gray")
                ∷ "index" ⇒ (number 0)
                ∷ []))
            ∷ []))
      ∷ []))
    ∷ (dict (
        "type" ⇒ (lit "value")
        ∷ "options" ⇒ (
            dict (
              "1" ⇒ (
                dict (
                  "text" ⇒ (lit "Accounting active")
                  ∷ "color" ⇒ (lit "green")
                  ∷ "index" ⇒ (number 1)
                  ∷ []))
              ∷ []))
        ∷ []))
    ∷ (dict (
        "type" ⇒ (lit "value")
        ∷ "options" ⇒ (
            dict (
              "2" ⇒ (
                dict (
                  "text" ⇒ (lit "Accounting unreliable - flow offload enabled")
                  ∷ "color" ⇒ (lit "red")
                  ∷ "index" ⇒ (number 2)
                  ∷ []))
              ∷ []))
        ∷ []))
    ∷ (dict (
        "type" ⇒ (lit "special")
        ∷ "options" ⇒ (
            dict (
              "match" ⇒ (lit "null")
              ∷ "result" ⇒ (
                  dict (
                    "text" ⇒ (lit "Not collected")
                    ∷ "color" ⇒ (lit "gray")
                    ∷ "index" ⇒ (number 3)
                    ∷ []))
              ∷ []))
        ∷ []))
    ∷ []

abbrev pub conntrack_state_mappings : List Json
conntrack_state_mappings =
    (dict (
      "type" ⇒ (lit "value")
      ∷ "options" ⇒ (
          dict (
            "0" ⇒ (
              dict (
                "text" ⇒ (lit "Not collected")
                ∷ "color" ⇒ (lit "gray")
                ∷ "index" ⇒ (number 0)
                ∷ []))
            ∷ []))
      ∷ []))
    ∷ (dict (
        "type" ⇒ (lit "value")
        ∷ "options" ⇒ (
            dict (
              "1" ⇒ (
                dict (
                  "text" ⇒ (lit "Current table measured")
                  ∷ "color" ⇒ (lit "green")
                  ∷ "index" ⇒ (number 1)
                  ∷ []))
              ∷ []))
        ∷ []))
    ∷ (dict (
        "type" ⇒ (lit "value")
        ∷ "options" ⇒ (
            dict (
              "2" ⇒ (
                dict (
                  "text" ⇒ (lit "Unavailable - flow offload semantics unverified")
                  ∷ "color" ⇒ (lit "red")
                  ∷ "index" ⇒ (number 2)
                  ∷ []))
              ∷ []))
        ∷ []))
    ∷ []

abbrev pub ipv6_mappings : List Json
ipv6_mappings =
    (dict (
      "type" ⇒ (lit "value")
      ∷ "options" ⇒ (
          dict (
            "0" ⇒ (dict ("text" ⇒ (lit "No") ∷ "color" ⇒ (lit "gray") ∷ "index" ⇒ (number 0) ∷ []))
            ∷ []))
      ∷ []))
    ∷ (dict (
        "type" ⇒ (lit "value")
        ∷ "options" ⇒ (
            dict (
              "1"
                ⇒ (dict ("text" ⇒ (lit "Yes") ∷ "color" ⇒ (lit "blue") ∷ "index" ⇒ (number 1) ∷ []))
              ∷ []))
        ∷ []))
    ∷ []

abbrev pub local_mac_mappings : List Json
local_mac_mappings =
    (dict (
      "type" ⇒ (lit "value")
      ∷ "options" ⇒ (
          dict (
            "0" ⇒ (
              dict ("text" ⇒ (lit "Global") ∷ "color" ⇒ (lit "green") ∷ "index" ⇒ (number 0) ∷ []))
            ∷ []))
      ∷ []))
    ∷ (dict (
        "type" ⇒ (lit "value")
        ∷ "options" ⇒ (
            dict (
              "1" ⇒ (
                dict (
                  "text" ⇒ (lit "Randomized/local")
                  ∷ "color" ⇒ (lit "orange")
                  ∷ "index" ⇒ (number 1)
                  ∷ []))
              ∷ []))
        ∷ []))
    ∷ []
