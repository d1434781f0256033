-- ===== src/Dashboard/Styles/Mappings.antt =====
-- The value mappings of scripts/build_openwrt_operations_dashboard.py.
use openwrt_grafana_monitor.Prelude.{List, [], ◌∷◌}
use openwrt_grafana_monitor.Dashboard.Json.{Json, dict, lit, number, ◌⇒◌}

abbrev pub status_mappings : List Json
status_mappings =
    (dict (
      "type" ⇒ (lit "value")
      ∷ "options" ⇒ (
          dict (
            "1" ⇒ (
              dict ("text" ⇒ (lit "Healthy") ∷ "color" ⇒ (lit "green") ∷ "index" ⇒ (number 0) ∷ []))
            ∷ []))
      ∷ []))
    ∷ (dict (
        "type" ⇒ (lit "value")
        ∷ "options" ⇒ (
            dict (
              "0"
                ⇒ (dict ("text" ⇒ (lit "Down") ∷ "color" ⇒ (lit "red") ∷ "index" ⇒ (number 1) ∷ []))
              ∷ []))
        ∷ []))
    ∷ (dict (
        "type" ⇒ (lit "special")
        ∷ "options" ⇒ (
            dict (
              "match" ⇒ (lit "null")
              ∷ "result" ⇒ (
                  dict
                    ("text" ⇒ (lit "No data") ∷ "color" ⇒ (lit "gray") ∷ "index" ⇒ (number 2) ∷ []))
              ∷ []))
        ∷ []))
    ∷ (dict (
        "type" ⇒ (lit "special")
        ∷ "options" ⇒ (
            dict (
              "match" ⇒ (lit "nan")
              ∷ "result"
                ⇒ (dict ("text" ⇒ (lit "n/a") ∷ "color" ⇒ (lit "gray") ∷ "index" ⇒ (number 3) ∷ []))
              ∷ []))
        ∷ []))
    ∷ []

abbrev pub boolean_ok_mappings : List Json
boolean_ok_mappings =
    (dict (
      "type" ⇒ (lit "value")
      ∷ "options" ⇒ (
          dict (
            "1" ⇒ (dict ("text" ⇒ (lit "OK") ∷ "color" ⇒ (lit "green") ∷ "index" ⇒ (number 0) ∷ []))
            ∷ []))
      ∷ []))
    ∷ (dict (
        "type" ⇒ (lit "value")
        ∷ "options" ⇒ (
            dict (
              "0" ⇒ (
                dict ("text" ⇒ (lit "Problem") ∷ "color" ⇒ (lit "red") ∷ "index" ⇒ (number 1) ∷ []))
              ∷ []))
        ∷ []))
    ∷ (dict (
        "type" ⇒ (lit "special")
        ∷ "options" ⇒ (
            dict (
              "match" ⇒ (lit "null")
              ∷ "result" ⇒ (
                  dict (
                    "text" ⇒ (lit "Unavailable")
                    ∷ "color" ⇒ (lit "gray")
                    ∷ "index" ⇒ (number 2)
                    ∷ []))
              ∷ []))
        ∷ []))
    ∷ (dict (
        "type" ⇒ (lit "special")
        ∷ "options" ⇒ (
            dict (
              "match" ⇒ (lit "nan")
              ∷ "result"
                ⇒ (dict ("text" ⇒ (lit "n/a") ∷ "color" ⇒ (lit "gray") ∷ "index" ⇒ (number 3) ∷ []))
              ∷ []))
        ∷ []))
    ∷ []

abbrev pub change_mappings : List Json
change_mappings =
    (dict (
      "type" ⇒ (lit "value")
      ∷ "options" ⇒ (
          dict (
            "0" ⇒ (
              dict
                ("text" ⇒ (lit "No change") ∷ "color" ⇒ (lit "green") ∷ "index" ⇒ (number 0) ∷ []))
            ∷ []))
      ∷ []))
    ∷ (dict (
        "type" ⇒ (lit "value")
        ∷ "options" ⇒ (
            dict (
              "1" ⇒ (
                dict
                  ("text" ⇒ (lit "Changed") ∷ "color" ⇒ (lit "yellow") ∷ "index" ⇒ (number 1) ∷ []))
              ∷ []))
        ∷ []))
    ∷ (dict (
        "type" ⇒ (lit "special")
        ∷ "options" ⇒ (
            dict (
              "match" ⇒ (lit "null")
              ∷ "result" ⇒ (
                  dict (
                    "text" ⇒ (lit "Unavailable")
                    ∷ "color" ⇒ (lit "gray")
                    ∷ "index" ⇒ (number 2)
                    ∷ []))
              ∷ []))
        ∷ []))
    ∷ []

abbrev pub availability_mappings : List Json
availability_mappings =
    (dict (
      "type" ⇒ (lit "value")
      ∷ "options" ⇒ (
          dict (
            "0" ⇒ (
              dict (
                "text" ⇒ (lit "Not collected")
                ∷ "color" ⇒ (lit "gray")
                ∷ "index" ⇒ (number 0)
                ∷ []))
            ∷ []))
      ∷ []))
    ∷ (dict (
        "type" ⇒ (lit "value")
        ∷ "options" ⇒ (
            dict (
              "1" ⇒ (
                dict
                  ("text" ⇒ (lit "Collected") ∷ "color" ⇒ (lit "blue") ∷ "index" ⇒ (number 1) ∷ []))
              ∷ []))
        ∷ []))
    ∷ (dict (
        "type" ⇒ (lit "special")
        ∷ "options" ⇒ (
            dict (
              "match" ⇒ (lit "null")
              ∷ "result" ⇒ (
                  dict (
                    "text" ⇒ (lit "Not collected")
                    ∷ "color" ⇒ (lit "gray")
                    ∷ "index" ⇒ (number 2)
                    ∷ []))
              ∷ []))
        ∷ []))
    ∷ []

abbrev pub device_state_mappings : List Json
device_state_mappings =
    (dict (
      "type" ⇒ (lit "value")
      ∷ "options" ⇒ (
          dict (
            "1" ⇒ (
              dict ("text" ⇒ (lit "Online") ∷ "color" ⇒ (lit "green") ∷ "index" ⇒ (number 0) ∷ []))
            ∷ []))
      ∷ []))
    ∷ (dict (
        "type" ⇒ (lit "value")
        ∷ "options" ⇒ (
            dict (
              "0" ⇒ (
                dict
                  ("text" ⇒ (lit "Offline") ∷ "color" ⇒ (lit "gray") ∷ "index" ⇒ (number 1) ∷ []))
              ∷ []))
        ∷ []))
    ∷ []
