-- ===== src/Server/Outcomes.antt =====
-- `run` of mcp_server/server.py comes back: with a connection and an answer to the command, or a
-- timeout, there is a result, and the client is closed.
use openwrt_grafana_monitor.Prelude.{
  Bool, List, [], arith, false, if◌then◌else◌, leb, length, pos, refl, take, true, ℕ, ℤ, ◌++◌, ◌∷◌,
  ◌≡◌, ◌≤◌,
}
use openwrt_grafana_monitor.Text.{Text}
use openwrt_grafana_monitor.Server.Runner.{
  Extra, RunResult, after_timeout, attempt, client_for, connect, is_zero, no_extra, report, result,
  result_at, run, timeout_text,
}
use openwrt_grafana_monitor.Server.Session.{
  Event, Execution, Remote, closed, connected, continue, executed, finally_close, finished, opened,
  returned, timed_out,
}
use openwrt_grafana_monitor.Policy.Inventory.{Inventory, Router, resolve_router}
use openwrt_grafana_monitor.Policy.Output.{redact, truncate_output, truncation_mark}
use openwrt_grafana_monitor.Policy.Result
use openwrt_grafana_monitor.Policy.Commands.{CommandSpec}
use openwrt_grafana_monitor.Server.Settings.{Settings}

-- What can be reported: the exit status, or that of a timeout.
pub data Answers : Execution → ℤ → Type 0 where
  status : (code : ℤ) (out err : List ℕ) → Answers (finished code out err) code
  late : Answers timed_out (pos 124)

truncate_output-ok :
    (value : Text) (n : ℕ)
    → 1 ≤ n
    → (cut : Text × Bool) × (truncate_output value (pos n) ≡ Result.ok cut)
unfolding truncate_output
truncate_output-ok value n h = (
  if leb (length value) n then (value, false) else (take n value ++ truncation_mark, true),
  ground arith,
)

-- What is done when the client connects, and when the command is on its way.
abbrev pub dialled : Settings → Remote → Inventory → List Event → Router → List Event
dialled cfg remote routers t router =
    t
    ++ connected router.host router.port (client_for cfg remote routers cfg.host_key_policy.policy)
      ∷ []

abbrev pub begun : Settings → Remote → Inventory → CommandSpec → List Event → Router → List Event
begun cfg remote routers spec t router =
    dialled cfg remote routers t router ++ executed spec.command spec.timeout_seconds ∷ []

-- A result with the exit code that is given, and `ok` where it is zero.
pub record Reports (code : ℤ) (r : RunResult) : Type 0 where
  pub coded : r.exit_code ≡ code
  pub judged : r.ok ≡ is_zero code

module _ (cfg : Settings) (remote : Remote) (routers : Inventory) (n : ℕ)
    (limit : cfg.output_limit ≡ pos n) (positive : 1 ≤ n) where
  result_at-Reports :
      (name : Text) (spec : CommandSpec) (code : ℤ) (out err : Text) (extra : Extra) (ms : ℕ)
      → (r : RunResult) × (result_at cfg remote routers name spec code out err extra ms
          ≡ Result.ok r)
        × Reports code r
  unfolding result_at
  result_at-Reports name spec code out err extra ms =
      let secrets = cfg.password ∷ cfg.token ∷ [] in
      let (o, e) = truncate_output-ok (redact out secrets) n positive in
      let (q, f) = truncate_output-ok (redact err secrets) n positive in
      (
        record {
          router = name;
          description = spec.description;
          exit_code = code;
          ok = is_zero code;
          stdout = o.0;
          stderr = q.0;
          stdout_truncated = o.1;
          stderr_truncated = q.1;
          duration_ms = ms;
          extra = extra;
        },
        rw (limit, e, f) refl,
        record { coded = refl; judged = refl },
      )

  result-Reports :
      (name : Text) (spec : CommandSpec) (code : ℤ) (out err : Text) (extra : Extra)
      (t : List Event)
      → (r : RunResult) × (result cfg remote routers name spec code out err extra t
          ≡ (returned r, t))
        × Reports code r
  unfolding result
  result-Reports name spec code out err extra t =
      let (r, e, c) = result_at-Reports name spec code out err extra (remote.elapsed t) in
      (r, rw e refl, c)

  module _ (name : Text) (spec : CommandSpec) (t : List Event) (router : Router) where
    -- What `try` leaves for an answer, at its end.
    attempt-Reports :
        (answer : Execution) (code : ℤ)
        → Answers answer code
        → (r : RunResult) × (continue (report cfg remote routers name spec) (
              finally_close
                (attempt cfg remote routers name spec answer)
                (begun cfg remote routers spec t router))
            ≡ (returned r, (begun cfg remote routers spec t router) ++ closed ∷ []))
          × Reports code r
    attempt-Reports answer code (status c out err) =
        result-Reports name spec c (remote.decode out) (remote.decode err) no_extra
          ((begun cfg remote routers spec t router) ++ closed ∷ [])
    attempt-Reports answer code late =
        let (r, e, c) =
          result-Reports name spec (pos 124) [] (timeout_text cfg remote routers spec)
            (after_timeout spec.timeout_seconds) (begun cfg remote routers spec t router) in
        (r, rw e refl, c)

    -- With an output limit of at least one character: to a router of the inventory that takes the
    -- connection, and gives the command an answer or none in time, `run` connects, runs the command,
    -- closes and comes back with a result that has the command's exit status, or 124 for a timeout;
    -- it is `ok` exactly if that is zero.
    pub run-Reports :
        (code : ℤ)
        → resolve_router routers name ≡ Result.ok router
        → remote.connect (dialled cfg remote routers t router) ≡ opened
        → Answers (remote.execute (begun cfg remote routers spec t router)) code
        → (r : RunResult) × (run cfg remote routers name spec t
            ≡ (returned r, (begun cfg remote routers spec t router) ++ closed ∷ []))
          × Reports code r
    unfolding run connect
    run-Reports code found there a =
        let (r, e, c) =
          attempt-Reports (remote.execute (begun cfg remote routers spec t router)) code a in
        (r, rw found (rw there e), c)
