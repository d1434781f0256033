-- ===== src/Policy/Output.antt =====
-- What mcp_server/core.py does with a command's output, and its test of the confirmation.
use openwrt_grafana_monitor.Policy.Result.{confirm_required}
use openwrt_grafana_monitor.Policy.Result.{output_limit_not_positive}
use openwrt_grafana_monitor.Prelude.{
  Bool, List, [], false, if◌then◌else◌, leb, length, ltb, negsuc, not, pos, take, true, ℤ, ◌&&◌,
  ◌++◌, ◌∷◌,
}
use openwrt_grafana_monitor.Text.{Text, codes, replace}
use openwrt_grafana_monitor.Policy.Result.{Result, err, ok, policy, refuse_if, ◌>>◌}
use openwrt_grafana_monitor.Policy.Commands.{CommandSpec}

unfoldable pub require_confirm : Bool → CommandSpec → Result (Unit {0})
require_confirm confirm spec = refuse_if (spec.mutating && not confirm) confirm_required

abbrev pub truncation_mark : Text
truncation_mark = codes "\n[truncated]"

unfoldable pub truncate_output : Text → ℤ → Result (Text × Bool)
truncate_output value (negsuc n) = err (policy output_limit_not_positive)
truncate_output value (pos limit) = do
  refuse_if (ltb limit 1) output_limit_not_positive
  ok (
      if leb (length value) limit
      then (value, false)
      else (take limit value ++ truncation_mark, true))

abbrev pub redaction_mark : Text
redaction_mark = codes "[redacted]"

-- One round of the loop of `redact`.
unfoldable pub redact_one : Text → Text → Text
unfolding replace
redact_one secret value =
    if leb 4 (length secret) then replace secret redaction_mark value else value

unfoldable pub redact : Text → List Text → Text
unfolding redact_one
redact value [] = value
redact value (secret ∷ secrets) = redact (redact_one secret value) secrets
