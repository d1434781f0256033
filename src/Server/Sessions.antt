-- ===== src/Server/Sessions.antt =====
-- What the tools do on the network: sessions with routers of the inventory.
pub mod Adds
pub mod Connects
pub mod Runs
pub mod Calls
use openwrt_grafana_monitor.Prelude.{
  List, [], ap, append-nil, append_assoc, some, subst, sym, ℕ, ℤ, ◌++◌, ◌∙◌, ◌∷◌, ◌≡◌, ◌≢◌,
}
use openwrt_grafana_monitor.Text.{Text, lookup}
use openwrt_grafana_monitor.Server.Session.{
  Client, Connection, Event, Exception, Execution, Outcome, Remote, Ssh, Transfer, aborted, asks,
  auto_add, bad_host_key, broken, closed, connected, continue, endless, executed, finally_close,
  finished, hung, lift, log, never_ready, opened, polled, pure, raise, raised, reject, returned,
  sent, ssh_exception, timed_out, unreachable, ◌>>=◌, ◌>>◌,
}
use openwrt_grafana_monitor.Policy.Commands.{
  CommandSpec, build_configure_syslog_command, build_diagnostic_command,
  build_metrics_sample_command, build_restart_monitoring_command, build_setup_command,
  build_test_log_command,
}
use openwrt_grafana_monitor.Server.Tools.{
  Call, after_stage, call, configure_syslog, diagnostic, list_routers, metrics_sample,
  monitoring_status, ran, restart_monitoring, run_repo_setup, runs, send_test_log, ssh_check,
  system_facts,
}
use openwrt_grafana_monitor.Server.Runner.{
  Attempt, Extra, RunResult, after_timeout, attempt, connect, no_extra, output, payload_bytes,
  received, report, reported, result, result_at, run, settle, stage_archive, stage_openwrt_payload,
  stage_spec, timeout_text,
}
use openwrt_grafana_monitor.Policy.Output.{require_confirm}
use openwrt_grafana_monitor.Policy.Inventory.{Inventory, Router, or_unknown, resolve_router}
use openwrt_grafana_monitor.Policy.Result
use openwrt_grafana_monitor.Policy.Result.{Error, Result}
use openwrt_grafana_monitor.Policy.HostKeys.{KeyPolicy, auto_add_policy, reject_policy}
use openwrt_grafana_monitor.Server.Settings.{Settings}

abbrev pub Listed : Inventory → Router → Type 0
Listed routers r = (name : Text) × (lookup name routers ≡ some r)

-- The client treats keys that it does not know as the configured policy says.
abbrev pub Obeys : KeyPolicy → Client → Type 0
Obeys auto_add_policy client = client.missing_keys ≡ auto_add
Obeys reject_policy client = client.missing_keys ≡ reject

-- What is done after the events `past` is a row of sessions with routers of the inventory under the
-- configured key policy: attempts to connect that did not open a connection, and connections that
-- were opened, used for one command, and closed.
pub data Sessions (routers : Inventory) (keys : KeyPolicy) (remote : Remote)
    : List Event → List Event → Type 0 where
  idle : {past : List Event} → Sessions routers keys remote past []
  failed :
      (r : Router) (client : Client) {past rest : List Event}
      → Listed routers r
      → Obeys keys client
      → remote.connect (past ++ connected r.host r.port client ∷ []) ≢ opened
      → Sessions routers keys remote (past ++ connected r.host r.port client ∷ []) rest
      → Sessions routers keys remote past (connected r.host r.port client ∷ rest)
  command :
      (r : Router) (client : Client) (text : Text) (timeout : ℤ) {past rest : List Event}
      → Listed routers r
      → Obeys keys client
      → remote.connect (past ++ connected r.host r.port client ∷ []) ≡ opened
      → Sessions routers keys remote
          (past ++ connected r.host r.port client ∷ executed text timeout ∷ closed ∷ [])
          rest
      → Sessions routers keys remote past
          (connected r.host r.port client ∷ executed text timeout ∷ closed ∷ rest)
  staging :
      (r : Router) (client : Client) (text : Text) (timeout : ℤ) (bytes : List ℕ)
      {past rest : List Event}
      → Listed routers r
      → Obeys keys client
      → remote.connect (past ++ connected r.host r.port client ∷ []) ≡ opened
      → Sessions routers keys remote
          (past
            ++ connected r.host r.port client ∷ executed text timeout ∷ sent bytes ∷ closed ∷ [])
          rest
      → Sessions routers keys remote past
          (connected r.host r.port client ∷ executed text timeout ∷ sent bytes ∷ closed ∷ rest)

-- A session that is still open, since the command on it never ends.
pub data Open (routers : Inventory) (keys : KeyPolicy) (remote : Remote)
    : List Event → List Event → Type 0 where
  waiting :
      (r : Router) (client : Client) (text : Text) (timeout : ℤ) {past : List Event}
      → Listed routers r
      → Obeys keys client
      → remote.connect (past ++ connected r.host r.port client ∷ []) ≡ opened
      → remote.execute (past ++ connected r.host r.port client ∷ executed text timeout ∷ [])
        ≡ endless
      → Open routers keys remote past (connected r.host r.port client ∷ executed text timeout ∷ [])
  polling :
      (r : Router) (client : Client) (text : Text) (timeout : ℤ) (bytes : List ℕ)
      {past : List Event}
      → Listed routers r
      → Obeys keys client
      → remote.connect (past ++ connected r.host r.port client ∷ []) ≡ opened
      → remote.transfer
          (past ++ connected r.host r.port client ∷ executed text timeout ∷ sent bytes ∷ [])
        ≡ never_ready
      → Open routers keys remote past
          (connected r.host r.port client ∷ executed text timeout ∷ sent bytes ∷ [])

-- What is done, by how it ends: where it comes back, a row of sessions; where it does not, such a
-- row and then a session on which the command never ends.
abbrev pub Leaves :
    {A : Type 0} → Inventory → KeyPolicy → Remote → Outcome A → List Event → List Event → Type 0
Leaves routers keys remote (returned a) past new = Sessions routers keys remote past new
Leaves routers keys remote (raised e) past new = Sessions routers keys remote past new
Leaves routers keys remote hung past new =
    (done : List Event) × (open_now : List Event) × (new ≡ done ++ open_now)
    × Sessions routers keys remote past done
    × Open routers keys remote (past ++ done) open_now

-- It comes back.
abbrev pub Comes : {A : Type 0} → Outcome A → Type 0
Comes (returned a) = Unit
Comes (raised e) = Unit
Comes hung = ⊥

module _ (routers : Inventory) (keys : KeyPolicy) (remote : Remote) where
  regroup :
      (past s rest t : List Event)
      → Sessions routers keys remote (past ++ (s ++ rest)) t
      → Sessions routers keys remote ((past ++ s) ++ rest) t
  regroup past s rest t k =
      subst (λ p. Sessions routers keys remote p t) (sym (append_assoc past s rest)) k

  pub Sessions-append :
      {past s t : List Event}
      → Sessions routers keys remote past s
      → Sessions routers keys remote (past ++ s) t
      → Sessions routers keys remote past (s ++ t)
  Sessions-append {past} {s} {t} idle k =
      subst (λ p. Sessions routers keys remote p t) (append-nil past) k
  Sessions-append {past} {s} {t} (failed r c l o n h) k =
      failed r c l o n (Sessions-append h (regroup past (connected r.host r.port c ∷ []) _ t k))
  Sessions-append {past} {s} {t} (command r c x n l o e h) k = command r c x n l o e (
      Sessions-append h
        (regroup past (connected r.host r.port c ∷ executed x n ∷ closed ∷ []) _ t k))
  Sessions-append {past} {s} {t} (staging r c x n b l o e h) k = staging r c x n b l o e (
      Sessions-append h
        (regroup past (connected r.host r.port c ∷ executed x n ∷ sent b ∷ closed ∷ []) _ t k))

  pub Leaves-append :
      {A : Type 0} (end : Outcome A) (past s t : List Event)
      → Sessions routers keys remote past s
      → Leaves routers keys remote end (past ++ s) t
      → Leaves routers keys remote end past (s ++ t)
  Leaves-append (returned a) past s t h k = Sessions-append h k
  Leaves-append (raised e) past s t h k = Sessions-append h k
  Leaves-append hung past s t h (done, open_now, same, k, o) = (
    s ++ done,
    open_now,
    ap (λ u. s ++ u) same ∙ sym (append_assoc s done open_now),
    Sessions-append h k,
    subst (λ p. Open routers keys remote p open_now) (append_assoc past s done) o,
  )

  pub Comes-Leaves :
      {A : Type 0} (end : Outcome A) {past new : List Event}
      → Comes end
      → Sessions routers keys remote past new
      → Leaves routers keys remote end past new
  Comes-Leaves (returned a) c h = h
  Comes-Leaves (raised e) c h = h
  Comes-Leaves hung c h = absurd c
