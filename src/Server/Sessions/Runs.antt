-- ===== src/Server/Sessions/Runs.antt =====
-- `run` and `stage_openwrt_payload` of mcp_server/server.py add a session.
use openwrt_grafana_monitor.Prelude.{
  List, [], ap, append-nil, append_assoc, length, refl, subst, sym, ◌++◌, ◌∙◌, ◌∷◌, ◌≡◌, ◌≢◌,
}
use openwrt_grafana_monitor.Text.{Text}
use openwrt_grafana_monitor.Server.Sessions.{
  Comes-Leaves, Listed, Open, command, idle, polling, staging, waiting,
}
use openwrt_grafana_monitor.Server.Runner.{
  Received, RunResult, attempt, payload_bytes, received, report, result, run, stage_archive,
  stage_spec,
}
use openwrt_grafana_monitor.Server.Session.{
  Event, Execution, Remote, Ssh, Transfer, aborted, broken, close_at_end, closed, connected,
  continue, endless, executed, finished, never_ready, opened, polled, sent, timed_out,
}
use openwrt_grafana_monitor.Server.Sessions.Adds.{Adds, Adds-bind-lift, closed_after}
use openwrt_grafana_monitor.Policy.Commands.{CommandSpec}
use openwrt_grafana_monitor.Policy.Inventory.{Inventory, Router, resolve_router}
use openwrt_grafana_monitor.Server.Settings.{Settings}
use openwrt_grafana_monitor.Server.Sessions.Connects.{
  Added, attempt-Quiet, client_for-Obeys, connect-Adds, own_client, received-Quiet, report-Quiet,
  resolve_router-Listed, result-Quiet,
}

module _ (cfg : Settings) (remote : Remote) (routers : Inventory) where
  module _ (name : Text) (spec : CommandSpec) (r : Router) (known : Listed routers r)
      (t : List Event)
      (open_now : remote.connect (t ++ connected r.host r.port (own_client cfg remote routers) ∷ [])
        ≡ opened) where
    abbrev here : Event
    here = connected r.host r.port (own_client cfg remote routers)

    abbrev started : Event
    started = executed spec.command spec.timeout_seconds

    abbrev on_the_way : List Event
    on_the_way = (t ++ here ∷ []) ++ started ∷ []

    two : on_the_way ≡ t ++ here ∷ started ∷ []
    two = append_assoc t (here ∷ []) (started ∷ [])

    -- What is added where the command comes to an end.
    ended :
        (answer : Execution)
        → answer ≢ endless
        → Added cfg remote routers t (
            continue
              (report cfg remote routers name spec)
              (close_at_end (attempt cfg remote routers name spec answer on_the_way)))
    ended answer n =
        let (same, comes) = attempt-Quiet cfg remote routers name spec answer n on_the_way in
        let (all_same, all_comes) =
          closed_after (attempt cfg remote routers name spec answer on_the_way)
            (report cfg remote routers name spec) on_the_way comes same
            (report-Quiet cfg remote routers name spec) in
        (
          here ∷ started ∷ closed ∷ [],
          all_same
              ∙ append_assoc (t ++ here ∷ []) (started ∷ []) (closed ∷ [])
              ∙ append_assoc t (here ∷ []) (started ∷ closed ∷ []),
          Comes-Leaves routers cfg.host_key_policy.policy remote _ all_comes (
              command r (own_client cfg remote routers) spec.command spec.timeout_seconds known
                (client_for-Obeys cfg remote routers _) open_now idle),
        )

    answered :
        (answer : Execution)
        → remote.execute on_the_way ≡ answer
        → Added cfg remote routers t (
            continue
              (report cfg remote routers name spec)
              (close_at_end (attempt cfg remote routers name spec answer on_the_way)))
    answered (finished code out err) e = ended (finished code out err) (λ q. cc)
    answered timed_out e = ended timed_out (λ q. cc)
    answered broken e = ended broken (λ q. cc)
    answered endless e = (
      here ∷ started ∷ [],
      two,
      (
        [],
        here ∷ started ∷ [],
        refl,
        idle,
        subst (λ p. Open routers cfg.host_key_policy.policy remote p (here ∷ started ∷ []))
            (sym (append-nil t))
            (waiting r (own_client cfg remote routers) spec.command spec.timeout_seconds known
              (client_for-Obeys cfg remote routers _) open_now (sym (ap remote.execute two) ∙ e)),
      ),
    )

  pub run-Adds :
      (name : Text) (spec : CommandSpec)
      → Adds routers cfg.host_key_policy.policy remote (run cfg remote routers name spec)
  unfolding run
  run-Adds name spec = Adds-bind-lift (resolve_router routers name) _ λ r found.
      let known = resolve_router-Listed routers name r found in
      connect-Adds cfg remote routers r _ known
        (λ t open_now. answered name spec r known t open_now _ refl)

  module _ (name : Text) (r : Router) (known : Listed routers r) (t : List Event)
      (open_now : remote.connect (t ++ connected r.host r.port (own_client cfg remote routers) ∷ [])
        ≡ opened) where
    abbrev dialled_up : Event
    dialled_up = connected r.host r.port (own_client cfg remote routers)

    abbrev unpacking : Event
    unpacking =
        executed (stage_spec cfg remote routers).command
          (stage_spec cfg remote routers).timeout_seconds

    abbrev payload : Event
    payload = sent remote.archive

    abbrev sent_off : List Event
    sent_off = ((t ++ dialled_up ∷ []) ++ unpacking ∷ []) ++ payload ∷ []

    three : sent_off ≡ t ++ dialled_up ∷ unpacking ∷ payload ∷ []
    three =
        append_assoc (t ++ dialled_up ∷ []) (unpacking ∷ []) (payload ∷ [])
        ∙ append_assoc t (dialled_up ∷ []) (unpacking ∷ payload ∷ [])

    abbrev staged : Received → Ssh RunResult
    staged got =
        result cfg remote routers name (stage_spec cfg remote routers) got.exit_code
          (remote.decode got.out) (remote.decode got.err) (payload_bytes (length remote.archive))

    unpacked :
        (answer : Transfer)
        → answer ≢ never_ready
        → Added cfg remote routers t
            (continue staged (close_at_end (received cfg remote routers answer sent_off)))
    unpacked answer n =
        let (same, comes) = received-Quiet cfg remote routers answer n sent_off in
        let (all_same, all_comes) =
          closed_after (received cfg remote routers answer sent_off) staged sent_off comes same
            (λ got.
              result-Quiet cfg remote routers name (stage_spec cfg remote routers) got.exit_code _ _
                _) in
        (
          dialled_up ∷ unpacking ∷ payload ∷ closed ∷ [],
          all_same
              ∙ ap (λ u. u ++ closed ∷ []) three
              ∙ append_assoc t (dialled_up ∷ unpacking ∷ payload ∷ []) (closed ∷ []),
          Comes-Leaves routers cfg.host_key_policy.policy remote _ all_comes (
              staging r (own_client cfg remote routers) _ _ remote.archive known
                (client_for-Obeys cfg remote routers _) open_now idle),
        )

    transferred :
        (answer : Transfer)
        → remote.transfer sent_off ≡ answer
        → Added cfg remote routers t
            (continue staged (close_at_end (received cfg remote routers answer sent_off)))
    transferred (polled rounds out err code) e = unpacked (polled rounds out err code) (λ q. cc)
    transferred aborted e = unpacked aborted (λ q. cc)
    transferred never_ready e = (
      dialled_up ∷ unpacking ∷ payload ∷ [],
      three,
      (
        [],
        dialled_up ∷ unpacking ∷ payload ∷ [],
        refl,
        idle,
        subst
            (λ p.
              Open routers cfg.host_key_policy.policy remote p
                (dialled_up ∷ unpacking ∷ payload ∷ []))
            (sym (append-nil t))
            (polling r (own_client cfg remote routers) _ _ remote.archive known
              (client_for-Obeys cfg remote routers _) open_now
              (sym (ap remote.transfer three) ∙ e)),
      ),
    )

  pub archive-Adds :
      (name : Text)
      → Adds routers cfg.host_key_policy.policy remote (stage_archive cfg remote routers name)
  unfolding stage_archive
  archive-Adds name = Adds-bind-lift (resolve_router routers name) _ λ r found.
      let known = resolve_router-Listed routers name r found in
      connect-Adds cfg remote routers r _ known
        (λ t open_now. transferred name r known t open_now _ refl)
