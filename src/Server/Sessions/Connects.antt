-- ===== src/Server/Sessions/Connects.antt =====
-- A connection to a router, as one step of a row of sessions.
use openwrt_grafana_monitor.Prelude.{
  Bool-cases, List, Option, [], inl, inr, none, pos, refl, some, subst, sym, ℕ, ℤ, ◌++◌, ◌∷◌, ◌≡◌,
  ◌≢◌, ◌⊎◌,
}
use openwrt_grafana_monitor.Text.{Text, codes, contains, lookup, lower}
use openwrt_grafana_monitor.Server.Sessions.{Leaves, Listed, Obeys, failed, idle}
use openwrt_grafana_monitor.Server.Runner.{
  Attempt, Extra, after_timeout, attempt, client_for, connect, failure, no_extra, output, received,
  report, reported, result, result_at, settle, timeout_text,
}
use openwrt_grafana_monitor.Server.Session.{
  Client, Connection, Event, Exception, Execution, Outcome, Remote, Ssh, Transfer, aborted,
  bad_host_key, broken, connected, endless, finished, never_ready, opened, polled, pure, raised,
  ssh_exception, ssh_failed, timed_out, unreachable, ◌>>◌,
}
use openwrt_grafana_monitor.Server.Sessions.Adds.{Adds, Quiet, Quiet-bind, Quiet-lift}
use openwrt_grafana_monitor.Policy.Commands.{CommandSpec}
use openwrt_grafana_monitor.Policy.HostKeys.{KeyPolicy, auto_add_policy, reject_policy}
use openwrt_grafana_monitor.Policy.Inventory.{Inventory, Router, or_unknown, resolve_router}
use openwrt_grafana_monitor.Policy.Result.{Result}
use openwrt_grafana_monitor.Server.Settings.{Settings}

or_unknown-ok :
    (name : Text) (found : Option Router) (r : Router)
    → or_unknown name found ≡ Result.ok r
    → found ≡ some r
or_unknown-ok name none r h = cc
or_unknown-ok name (some s) r h = cc

pub resolve_router-Listed :
    (routers : Inventory) (name : Text) (r : Router)
    → resolve_router routers name ≡ Result.ok r
    → Listed routers r
unfolding resolve_router
resolve_router-Listed routers name r h = (name, or_unknown-ok name (lookup name routers) r h)

module _ (cfg : Settings) (remote : Remote) (routers : Inventory) where
  pub result-Quiet :
      (name : Text) (spec : CommandSpec) (code : ℤ) (out err : Text) (extra : Extra)
      → Quiet (result cfg remote routers name spec code out err extra)
  unfolding result
  result-Quiet name spec code out err extra t =
      Quiet-lift (result_at cfg remote routers name spec code out err extra (remote.elapsed t)) t

  pub attempt-Quiet :
      (name : Text) (spec : CommandSpec) (e : Execution)
      → e ≢ endless
      → Quiet (attempt cfg remote routers name spec e)
  attempt-Quiet name spec (finished code out err) n t = (refl, tt)
  attempt-Quiet name spec timed_out n t =
      Quiet-bind
        (result cfg remote routers name spec (pos 124) [] (timeout_text cfg remote routers spec)
          (after_timeout spec.timeout_seconds))
        (λ r. pure (reported r)) (result-Quiet name spec (pos 124) [] _ _) (λ r u. (refl, tt)) t
  attempt-Quiet name spec broken n t = (refl, tt)
  attempt-Quiet name spec endless n t = absurd (n refl)

  pub report-Quiet :
      (name : Text) (spec : CommandSpec) (a : Attempt)
      → Quiet (report cfg remote routers name spec a)
  report-Quiet name spec (output code out err) t = result-Quiet name spec code out err no_extra t
  report-Quiet name spec (reported r) t = (refl, tt)

  pub received-Quiet : (x : Transfer) → x ≢ never_ready → Quiet (received cfg remote routers x)
  received-Quiet (polled rounds out err code) n t = (refl, tt)
  received-Quiet aborted n t = (refl, tt)
  received-Quiet never_ready n t = absurd (n refl)

  settle-or :
      {B : Type 0} (host : Text) (port : ℕ) (answer : Connection) (rest : Ssh B) (u : List Event)
      → ((answer ≢ opened)
          × (x : Exception) × ((settle cfg remote routers host port answer >> rest) u
              ≡ (raised x, u)))
        ⊎ ((answer ≡ opened) × ((settle cfg remote routers host port answer >> rest) u ≡ rest u))
  settle-or host port opened rest u = inr (refl, refl)
  settle-or host port bad_host_key rest u = inl (λ e. cc, _, refl)
  settle-or host port (ssh_exception message) rest u =
      elim (Bool-cases (contains (codes "not found in known_hosts") (lower message))) [
        | inl e ↦ inl (λ q. cc, failure cfg remote routers host port, rw e refl)
        | inr e ↦ inl (λ q. cc, ssh_failed message, rw e refl)
      ]
  settle-or host port unreachable rest u = inl (λ e. cc, _, refl)

  -- The client that connects is set up as the policy says.
  abbrev pub own_client : Client
  own_client = client_for cfg remote routers cfg.host_key_policy.policy

  pub client_for-Obeys : (keys : KeyPolicy) → Obeys keys (client_for cfg remote routers keys)
  unfolding client_for
  client_for-Obeys auto_add_policy = refl
  client_for-Obeys reject_policy = refl

  -- What an action that ended has added after the events `t`.
  abbrev pub Added : {A : Type 0} → List Event → Outcome A × List Event → Type 0
  Added t end =
      (new : List Event) × (end.1 ≡ t ++ new)
      × Leaves routers cfg.host_key_policy.policy remote end.0 t new

  -- A connection to a listed router, and a rest that makes a session of it where it is reached.
  pub connect-Adds :
      {B : Type 0} (r : Router) (rest : Ssh B)
      → Listed routers r
      → ((t : List Event)
          → remote.connect (t ++ connected r.host r.port own_client ∷ []) ≡ opened
          → Added t (rest (t ++ connected r.host r.port own_client ∷ [])))
      → Adds routers cfg.host_key_policy.policy remote
          (connect cfg remote routers r.host r.port >> rest)
  unfolding connect
  connect-Adds r rest known used = record {
    at = λ t.
        let here = connected r.host r.port own_client in
        let u : List Event = t ++ here ∷ [] in
        elim (settle-or r.host r.port (remote.connect u) rest u) [
          | inl (n, x, e) ↦
              subst (Added t) (sym e)
                (here ∷ [], refl, failed r own_client known (client_for-Obeys _) n idle)
          | inr (o, e) ↦ subst (Added t) (sym e) (used t o)
        ];
  }
