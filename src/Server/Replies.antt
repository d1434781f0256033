-- ===== src/Server/Replies.antt =====
-- What the replies of the tools hold.
use openwrt_grafana_monitor.Prelude.{
  Bool, List, Option, [], ap, false, if◌then◌else◌, length, map, none, not, refl, some, subst, true,
  ◌∙◌, ◌≡◌,
}
use openwrt_grafana_monitor.Text.{Text}
use openwrt_grafana_monitor.Policy.Commands.{
  CommandSpec, build_configure_syslog_command, build_diagnostic_command,
  build_metrics_sample_command, build_monitoring_status_command, build_restart_monitoring_command,
  build_setup_command, build_system_facts_command, build_test_log_command,
}
use openwrt_grafana_monitor.Policy.Output.{require_confirm}
use openwrt_grafana_monitor.Policy.Result.{Result}
use openwrt_grafana_monitor.Server.Tools.{
  Call, Reply, after_stage, call, check_spec, configure_syslog, diagnostic, list_routers, listed,
  metrics_sample, monitoring_status, ran, restart_monitoring, run_repo_setup, runs, send_test_log,
  set_up, ssh_check, system_facts,
}
use openwrt_grafana_monitor.Server.Session.{
  Event, Exception, Remote, Ssh, asks, executed, finally_close, lift, log, pure, raise, returned,
  sent, ◌>>=◌, ◌>>◌,
}
use openwrt_grafana_monitor.Server.Secrets.{
  IsClean, IsSecret, continue-returned, lift-returned, result-IsClean, returned-injective,
  run-IsClean,
}
use openwrt_grafana_monitor.Server.Runner.{
  Received, RunResult, connect, payload_bytes, received, result, run, stage_archive,
  stage_openwrt_payload, stage_spec,
}
use openwrt_grafana_monitor.Policy.Inventory.{Inventory, resolve_router}
use openwrt_grafana_monitor.Server.Settings.{Settings}

abbrev ok_of : Result CommandSpec → Option CommandSpec
ok_of (Result.ok spec) = some spec
ok_of (Result.err e) = none

-- The router that a call names.
abbrev pub router_of : Call → Text
router_of list_routers = []
router_of (ssh_check router) = router
router_of (system_facts router) = router
router_of (monitoring_status router) = router
router_of (metrics_sample router n) = router
router_of (diagnostic router kind) = router
router_of (send_test_log router confirm message tag) = router
router_of (restart_monitoring router target confirm) = router
router_of (configure_syslog router host port proto confirm) = router
router_of (run_repo_setup router host confirm profile interface port proto) = router

-- The command of a call.
abbrev pub spec_of : Settings → Call → Option CommandSpec
spec_of cfg list_routers = none
spec_of cfg (ssh_check router) = some check_spec
spec_of cfg (system_facts router) = some build_system_facts_command
spec_of cfg (monitoring_status router) = some build_monitoring_status_command
spec_of cfg (metrics_sample router n) = ok_of (build_metrics_sample_command n)
spec_of cfg (diagnostic router kind) = ok_of (build_diagnostic_command kind)
spec_of cfg (send_test_log router confirm message tag) = ok_of (build_test_log_command message tag)
spec_of cfg (restart_monitoring router target confirm) =
    ok_of (build_restart_monitoring_command target)
spec_of cfg (configure_syslog router host port proto confirm) =
    ok_of (build_configure_syslog_command host port proto)
spec_of cfg (run_repo_setup router host confirm profile interface port proto) =
    ok_of (build_setup_command host profile interface port proto cfg.setup_timeout_seconds)

abbrev pub IsCleanSetup : Text → Text → CommandSpec → Option RunResult → Type 0
IsCleanSetup p name spec none = Unit
IsCleanSetup p name spec (some r) = IsClean p name spec r

-- The reply is what the call asks for, and the outputs in it hold no `p`.
abbrev pub IsCleanReply : Settings → Remote → Inventory → Text → Call → Reply → Type 0
IsCleanReply cfg remote routers p c (listed rs) = (c ≡ list_routers) × (rs ≡ map (λ r. r.1) routers)
IsCleanReply cfg remote routers p c (ran r) =
    (spec : CommandSpec) × (spec_of cfg c ≡ some spec) × IsClean p (router_of c) spec r
IsCleanReply cfg remote routers p c (set_up s) =
    (spec : CommandSpec) × (spec_of cfg c ≡ some spec)
    × IsClean p (router_of c) (stage_spec cfg remote routers) s.stage
    × IsCleanSetup p (router_of c) spec s.setup

-- Behind a guard that raises, the action returned.
past_guard :
    {A : Type 0} (b : Bool) (e : Exception) (m : Ssh A) (t : List Event) (a : A)
    → ((if not b then raise e else m) t).0 ≡ returned a
    → (m t).0 ≡ returned a
past_guard true e m t a h = h
past_guard false e m t a h = cc

module _ (cfg : Settings) (remote : Remote) (routers : Inventory) (p : Text)
    (s : IsSecret cfg p) where
  -- Every reply to a call that an action returns is clean.
  abbrev Cleans : Call → Ssh Reply → Type 0
  Cleans c m =
      (t : List Event) (reply : Reply)
      → (m t).0 ≡ returned reply
      → IsCleanReply cfg remote routers p c reply

  pure-Cleans :
      (c : Call) (reply : Reply) → IsCleanReply cfg remote routers p c reply → Cleans c (pure reply)
  pure-Cleans c reply d t q h =
      subst (IsCleanReply cfg remote routers p c) (returned-injective reply q h) d

  runs-Cleans :
      (c : Call) (spec : CommandSpec)
      → spec_of cfg c ≡ some spec
      → Cleans c (runs cfg remote routers (router_of c) spec)
  runs-Cleans c spec e t reply h =
      let (r, now, done, same) =
        continue-returned (run cfg remote routers (router_of c) spec t) (λ r. pure (ran r)) reply
          h in
      pure-Cleans c (ran r)
        (spec, e, run-IsClean cfg remote routers p s (router_of c) spec t r done) now reply same

  bind-Cleans :
      {A : Type 0} (c : Call) (m : Result A) (f : A → Ssh Reply)
      → ((a : A) → m ≡ Result.ok a → Cleans c (f a))
      → Cleans c (lift m >>= f)
  bind-Cleans c m f k t reply h =
      let (a, now, done, same) = continue-returned (lift m t) f reply h in
      k a (lift-returned m t a done) now reply same

  stage_archive-IsClean :
      (router : Text) (t : List Event) (r : RunResult)
      → (stage_archive cfg remote routers router t).0 ≡ returned r
      → IsClean p router (stage_spec cfg remote routers) r
  unfolding stage_archive
  stage_archive-IsClean router t r h =
      let (target, t1, found, h1) =
        continue-returned (lift (resolve_router routers router) t) _ r h in
      let (_, t2, there, h2) =
        continue-returned (connect cfg remote routers target.host target.port t1) _ r h1 in
      let (got, t3, given, h3) =
        continue-returned (finally_close transferred t2) reported_stage r h2 in
      result-IsClean cfg remote routers p s router (stage_spec cfg remote routers) got.exit_code
        (remote.decode got.out) (remote.decode got.err) (payload_bytes (length remote.archive)) t3 r
        h3
    where
      transferred : Ssh Received
      transferred = do
        log (
            executed (stage_spec cfg remote routers).command
              (stage_spec cfg remote routers).timeout_seconds)
        log (sent remote.archive)
        answer ← asks remote.transfer
        received cfg remote routers answer

      reported_stage : Received → Ssh RunResult
      reported_stage got =
          result cfg remote routers router (stage_spec cfg remote routers) got.exit_code
            (remote.decode got.out) (remote.decode got.err) (payload_bytes (length remote.archive))

  stage-IsClean :
      (router : Text) (t : List Event) (r : RunResult)
      → (stage_openwrt_payload cfg remote routers router t).0 ≡ returned r
      → IsClean p router (stage_spec cfg remote routers) r
  unfolding stage_openwrt_payload
  stage-IsClean router t r h =
      stage_archive-IsClean router t r
        (past_guard remote.payload_exists _ (stage_archive cfg remote routers router) t r h)

  if-Cleans :
      (c : Call) (b : Bool) (m n : Ssh Reply)
      → Cleans c m
      → Cleans c n
      → Cleans c (if b then m else n)
  if-Cleans c true m n d e = d
  if-Cleans c false m n d e = e

  after_stage-Cleans :
      (c : Call) (spec : CommandSpec) (stage : RunResult)
      → spec_of cfg c ≡ some spec
      → IsClean p (router_of c) (stage_spec cfg remote routers) stage
      → Cleans c (after_stage cfg remote routers (router_of c) spec stage)
  after_stage-Cleans c spec stage e d =
      if-Cleans c (not stage.ok) _ _ (pure-Cleans c _ (spec, e, d, tt)) (λ t reply h.
        let (r, now, done, same) =
          continue-returned (run cfg remote routers (router_of c) spec t) _ reply h in
        pure-Cleans c _ (spec, e, d, run-IsClean cfg remote routers p s (router_of c) spec t r done)
          now reply same)

  made-spec :
      (c : Call) (made : Result CommandSpec) (spec : CommandSpec)
      → spec_of cfg c ≡ ok_of made
      → made ≡ Result.ok spec
      → spec_of cfg c ≡ some spec
  made-spec c made spec e h = e ∙ ap ok_of h

  built-Cleans :
      (c : Call) (made : Result CommandSpec)
      → spec_of cfg c ≡ ok_of made
      → Cleans c (lift made >>= λ spec. runs cfg remote routers (router_of c) spec)
  built-Cleans c made e =
      bind-Cleans c made (λ spec. runs cfg remote routers (router_of c) spec)
        (λ spec h. runs-Cleans c spec (made-spec c made spec e h))

  confirmed-Cleans :
      (c : Call) (made : Result CommandSpec) (confirm : Bool) (rest : CommandSpec → Ssh Reply)
      → spec_of cfg c ≡ ok_of made
      → ((spec : CommandSpec) → spec_of cfg c ≡ some spec → Cleans c (rest spec))
      → Cleans c (lift made >>= λ spec. lift (require_confirm confirm spec) >> rest spec)
  confirmed-Cleans c made confirm rest e k =
      bind-Cleans c made (λ spec. lift (require_confirm confirm spec) >> rest spec)
        (λ spec h.
          bind-Cleans c (require_confirm confirm spec) (λ _. rest spec)
            (λ _ _. k spec (made-spec c made spec e h)))

  -- `run_repo_setup`, behind its checks
  abbrev staged : Text → CommandSpec → Ssh Reply
  staged router spec = do
    stage ← stage_openwrt_payload cfg remote routers router
    after_stage cfg remote routers router spec stage

  staged-Cleans :
      (c : Call) (spec : CommandSpec)
      → spec_of cfg c ≡ some spec
      → Cleans c (staged (router_of c) spec)
  staged-Cleans c spec e t reply h =
      let (stage, now, done, more) =
        continue-returned (stage_openwrt_payload cfg remote routers (router_of c) t)
          (after_stage cfg remote routers (router_of c) spec) reply h in
      after_stage-Cleans c spec stage e (stage-IsClean (router_of c) t stage done) now reply more

  call-Cleans : (c : Call) → Cleans c (call cfg remote routers c)
  unfolding call
  call-Cleans list_routers = pure-Cleans list_routers _ (refl, refl)
  call-Cleans (ssh_check router) = runs-Cleans (ssh_check router) check_spec refl
  call-Cleans (system_facts router) =
      runs-Cleans (system_facts router) build_system_facts_command refl
  call-Cleans (monitoring_status router) =
      runs-Cleans (monitoring_status router) build_monitoring_status_command refl
  call-Cleans (metrics_sample router n) = built-Cleans (metrics_sample router n) _ refl
  call-Cleans (diagnostic router kind) = built-Cleans (diagnostic router kind) _ refl
  call-Cleans (send_test_log router confirm message tag) =
      let c = send_test_log router confirm message tag in
      confirmed-Cleans c (build_test_log_command message tag) confirm _ refl (runs-Cleans c)
  call-Cleans (restart_monitoring router target confirm) =
      let c = restart_monitoring router target confirm in
      confirmed-Cleans c (build_restart_monitoring_command target) confirm _ refl (runs-Cleans c)
  call-Cleans (configure_syslog router host port proto confirm) =
      let c = configure_syslog router host port proto confirm in
      confirmed-Cleans c (build_configure_syslog_command host port proto) confirm _ refl
        (runs-Cleans c)
  call-Cleans (run_repo_setup router host confirm profile interface port proto) =
      let c = run_repo_setup router host confirm profile interface port proto in
      confirmed-Cleans c
        (build_setup_command host profile interface port proto cfg.setup_timeout_seconds) confirm
        (staged router) refl (staged-Cleans c)

  -- Whatever a tool is called with and whatever the router answers, the outputs in the reply that it
  -- returns hold neither the password nor the token, where that is an opaque secret; the other texts
  -- of a result are the router's name in the call and the description of the call's command (or of
  -- the staging command), and the routers that are listed are those of the inventory.
  pub call-IsClean :
      (c : Call) (t : List Event) (reply : Reply)
      → (call cfg remote routers c t).0 ≡ returned reply
      → IsCleanReply cfg remote routers p c reply
  call-IsClean c = call-Cleans c
