-- ===== src/Server/Runner.antt =====
-- `SSHRunner` of mcp_server/server.py.
use openwrt_grafana_monitor.Prelude.{
  Bool, List, Option, [], false, if◌then◌else◌, length, map, negsuc, none, not, pos, some, true, ℕ,
  ℤ, ◌++◌, ◌==◌, ◌∷◌,
}
use openwrt_grafana_monitor.Text.{Text, codes, contains, lower, or_else, show_ℤ}
use openwrt_grafana_monitor.Policy.Result
use openwrt_grafana_monitor.Policy.Result.{Result, host_key_failure, payload_missing, policy}
use openwrt_grafana_monitor.Policy.HostKeys.{
  KeyPolicy, auto_add_policy, host_key_failure_message, reject_policy,
}
use openwrt_grafana_monitor.Policy.Inventory.{Inventory, resolve_router}
use openwrt_grafana_monitor.Policy.Commands.{CommandSpec}
use openwrt_grafana_monitor.Policy.Output.{redact, truncate_output}
use openwrt_grafana_monitor.Server.Settings.{Settings}
use openwrt_grafana_monitor.Server.Session.{
  Client, Connection, Exception, Execution, Remote, Ssh, Transfer, aborted, asks, auto_add,
  bad_host_key, broken, connected, endless, executed, finally_close, finished, hang, lift, log,
  never_ready, opened, other, polled, pure, raise, refused, reject, sent, ssh_exception, ssh_failed,
  timed_out, unreachable, ◌>>=◌, ◌>>◌,
}

-- The entries that a caller adds to the result.
pub data Extra : Type 0 where
  no_extra : Extra
  after_timeout : ℤ → Extra
  payload_bytes : ℕ → Extra

pub record RunResult : Type 0 where
  pub router : Text
  pub description : Text
  pub exit_code : ℤ
  pub ok : Bool
  pub stdout : Text
  pub stderr : Text
  pub stdout_truncated : Bool
  pub stderr_truncated : Bool
  pub duration_ms : ℕ
  pub extra : Extra

abbrev pub is_zero : ℤ → Bool
is_zero (pos n) = n == 0
is_zero (negsuc n) = false

-- The chunks that polling finds on one stream, in the order in which they are read.
unfoldable pub chunks : List (Option (List ℕ)) → List (List ℕ)
chunks [] = []
chunks (none ∷ rs) = chunks rs
chunks (some c ∷ rs) = c ∷ chunks rs

-- `b"".join(chunks)`
unfoldable pub concat : List (List ℕ) → List ℕ
concat [] = []
concat (c ∷ cs) = c ++ concat cs

pub data Attempt : Type 0 where
  output : ℤ → Text → Text → Attempt
  reported : RunResult → Attempt

pub record Received : Type 0 where
  pub exit_code : ℤ
  pub out : List ℕ
  pub err : List ℕ

module _ (cfg : Settings) (remote : Remote) (routers : Inventory) where
  -- `_result`, without the reading of the clock
  unfoldable pub result_at : Text → CommandSpec → ℤ → Text → Text → Extra → ℕ → Result RunResult
  result_at router_name spec exit_code stdout stderr extra duration =
      let secrets = cfg.password ∷ cfg.token ∷ [] in
      Result.◌>>=◌ (truncate_output (redact stdout secrets) cfg.output_limit) λ out.
        Result.◌>>=◌ (truncate_output (redact stderr secrets) cfg.output_limit) λ err.
          Result.ok (record {
            router = router_name;
            description = spec.description;
            exit_code = exit_code;
            ok = is_zero exit_code;
            stdout = out.0;
            stderr = err.0;
            stdout_truncated = out.1;
            stderr_truncated = err.1;
            duration_ms = duration;
            extra = extra;
          })

  -- `_result`
  unfoldable pub result : Text → CommandSpec → ℤ → Text → Text → Extra → Ssh RunResult
  unfolding result_at
  result router_name spec exit_code stdout stderr extra = do
    duration ← asks remote.elapsed
    lift (result_at router_name spec exit_code stdout stderr extra duration)

  abbrev pub failure : Text → ℕ → Exception
  failure host port = refused (
      policy (
        host_key_failure (host_key_failure_message host port cfg.host_key_policy.known_hosts_path)))

  abbrev pub settle : Text → ℕ → Connection → Ssh (Unit {0})
  settle host port opened = pure tt
  settle host port bad_host_key = raise (failure host port)
  settle host port (ssh_exception message) =
      if contains (codes "not found in known_hosts") (lower message)
      then raise (failure host port)
      else raise (ssh_failed message)
  settle host port unreachable = raise other

  -- The client of `_connect`, before it connects. What the policy class does with a key is
  -- paramiko's.
  unfoldable pub client_for : KeyPolicy → Client
  client_for auto_add_policy = record { host_keys = none; missing_keys = auto_add }
  client_for reject_policy = record {
    host_keys =
        if remote.known_hosts_exists then some cfg.host_key_policy.known_hosts_path else none;
    missing_keys = reject;
  }

  -- `_connect`
  unfoldable pub connect : Text → ℕ → Ssh (Unit {0})
  unfolding client_for
  connect host port = do
    log (connected host port (client_for cfg.host_key_policy.policy))
    answer ← asks remote.connect
    settle host port answer

  abbrev pub timeout_text : CommandSpec → Text
  timeout_text spec =
      or_else spec.timeout_message
        (codes "command timed out after " ++ (show_ℤ spec.timeout_seconds ++ codes " seconds"))

  -- What the body of `try` leaves: the output of a command, or a result that is returned at once.
  abbrev pub attempt : Text → CommandSpec → Execution → Ssh Attempt
  attempt router_name spec (finished exit_code out err) =
      pure (output exit_code (remote.decode out) (remote.decode err))
  attempt router_name spec timed_out =
      result router_name spec (pos 124) [] (timeout_text spec) (after_timeout spec.timeout_seconds)
      >>= λ r. pure (reported r)
  attempt router_name spec broken = raise other
  attempt router_name spec endless = hang

  abbrev pub report : Text → CommandSpec → Attempt → Ssh RunResult
  report router_name spec (output exit_code out err) =
      result router_name spec exit_code out err no_extra
  report router_name spec (reported r) = pure r

  -- `run`: the client is closed on every way out, once it is connected.
  unfoldable pub run : Text → CommandSpec → Ssh RunResult
  unfolding connect result
  run router_name spec = do
    router ← lift (resolve_router routers router_name)
    connect router.host router.port
    left ← finally_close do
      log (executed spec.command spec.timeout_seconds)
      answer ← asks remote.execute
      attempt router_name spec answer
    report router_name spec left

  abbrev pub stage_spec : CommandSpec
  stage_spec = record {
    command = codes "rm -rf /tmp/openwrt && tar -x -C /tmp";
    timeout_seconds = pos 90;
    mutating = true;
    description = codes "Stage repo OpenWrt payload under /tmp/openwrt.";
    timeout_message = [];
  }

  abbrev pub received : Transfer → Ssh Received
  received (polled rounds out_rest err_rest exit_code) = pure (record {
    exit_code = exit_code;
    out = concat (chunks (map (λ r. r.0) rounds) ++ out_rest);
    err = concat (chunks (map (λ r. r.1) rounds) ++ err_rest);
  })
  received aborted = raise other
  received never_ready = hang

  -- `stage_openwrt_payload`, past the test of the directory
  unfoldable pub stage_archive : Text → Ssh RunResult
  unfolding connect result chunks concat
  stage_archive router_name = do
    router ← lift (resolve_router routers router_name)
    connect router.host router.port
    got ← finally_close do
      log (executed stage_spec.command stage_spec.timeout_seconds)
      log (sent remote.archive)
      answer ← asks remote.transfer
      received answer
    result router_name stage_spec got.exit_code (remote.decode got.out) (remote.decode got.err)
        (payload_bytes (length remote.archive))

  unfoldable pub stage_openwrt_payload : Text → Ssh RunResult
  unfolding stage_archive
  stage_openwrt_payload router_name =
      if not remote.payload_exists
      then raise (refused (policy payload_missing))
      else stage_archive router_name
