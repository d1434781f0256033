-- ===== src/Server/Secrets.antt =====
-- What the tools return of a router's output: `_result` and `run` of
-- mcp_server/server.py.
use openwrt_grafana_monitor.Prelude.{
  List, [], false, inl, inr, pos, refl, subst, ℕ, ℤ, ◌++◌, ◌∷◌, ◌≡◌, ◌⊎◌,
}
use openwrt_grafana_monitor.Text.{Text, contains}
use openwrt_grafana_monitor.Server.Runner.{
  Attempt, Extra, RunResult, after_timeout, attempt, connect, output, report, reported, result,
  result_at, run, timeout_text,
}
use openwrt_grafana_monitor.Server.Session.{
  Event, Execution, Outcome, Remote, Ssh, asks, broken, close_at_end, continue, endless, executed,
  finally_close, finished, hung, lift, log, raised, returned, timed_out, ◌>>=◌, ◌>>◌,
}
use openwrt_grafana_monitor.Policy.Inventory.{Inventory, resolve_router}
use openwrt_grafana_monitor.Policy.Result.{>>=-eq-ok, Result, ok-injective}
use openwrt_grafana_monitor.Policy.Redaction.{IsOpaque, redact-clean, truncate_output-clean}
use openwrt_grafana_monitor.Policy.Output.{redact, truncate_output}
use openwrt_grafana_monitor.Policy.Commands.{CommandSpec}
use openwrt_grafana_monitor.Server.Settings.{Settings}

-- A secret of the settings, which redaction acts on.
pub record IsSecret (cfg : Settings) (p : Text) : Type 0 where
  pub opaque : IsOpaque p
  pub own : (p ≡ cfg.password) ⊎ (p ≡ cfg.token)

-- The result of the command on the router `name`: neither of the two outputs in it holds `p`, and its
-- other texts are the name and the description of the command.
pub record IsClean (p name : Text) (spec : CommandSpec) (r : RunResult) : Type 0 where
  pub router : r.router ≡ name
  pub description : r.description ≡ spec.description
  pub out_clean : contains p r.stdout ≡ false
  pub err_clean : contains p r.stderr ≡ false

redacted :
    (cfg : Settings) (p value : Text)
    → IsSecret cfg p
    → contains p (redact value (cfg.password ∷ cfg.token ∷ [])) ≡ false
redacted cfg p value s = elim s.own [
  | inl e ↦
      subst (λ q. contains p (redact value (q ∷ cfg.token ∷ [])) ≡ false) e
        (redact-clean p [] (cfg.token ∷ []) value s.opaque)
  | inr e ↦
      subst (λ q. contains p (redact value (cfg.password ∷ q ∷ [])) ≡ false) e
        (redact-clean p (cfg.password ∷ []) [] value s.opaque)
]

-- Where an action that goes on after another returned, the first returned.
pub continue-returned :
    {A B : Type 0} (end : Outcome A × List Event) (f : A → Ssh B) (b : B)
    → (continue f end).0 ≡ returned b
    → (a : A) × (now : List Event) × (end.0 ≡ returned a) × ((f a now).0 ≡ returned b)
continue-returned (returned a, t) f b h = (a, t, refl, h)
continue-returned (raised e, t) f b h = cc
continue-returned (hung, t) f b h = cc

-- An action that returned where the client is closed at its end.
close-returned :
    {A : Type 0} (end : Outcome A × List Event) (a : A)
    → (close_at_end end).0 ≡ returned a
    → end.0 ≡ returned a
close-returned (returned b, t) a h = h
close-returned (raised e, t) a h = cc
close-returned (hung, t) a h = cc

pub returned-injective : {A : Type 0} (a b : A) → returned a ≡ returned b → a ≡ b
returned-injective a b h = cc

reported-injective : (q r : RunResult) → returned (reported q) ≡ returned (reported r) → q ≡ r
reported-injective q r h = cc

pub lift-returned :
    {A : Type 0} (m : Result A) (t : List Event) (a : A)
    → (lift m t).0 ≡ returned a
    → m ≡ Result.ok a
lift-returned (Result.ok b) t a h = cc
lift-returned (Result.err e) t a h = cc

module _ (cfg : Settings) (remote : Remote) (routers : Inventory) (p : Text)
    (s : IsSecret cfg p) where
  result_at-IsClean :
      (name : Text) (spec : CommandSpec) (code : ℤ) (out err : Text) (extra : Extra) (ms : ℕ)
      (r : RunResult)
      → result_at cfg remote routers name spec code out err extra ms ≡ Result.ok r
      → IsClean p name spec r
  unfolding result_at
  result_at-IsClean name spec code out err extra ms r h =
      let (o, cut_out, h1) =
        >>=-eq-ok (truncate_output (redact out (cfg.password ∷ cfg.token ∷ [])) cfg.output_limit) _
          h in
      let (e, cut_err, h2) =
        >>=-eq-ok (truncate_output (redact err (cfg.password ∷ cfg.token ∷ [])) cfg.output_limit) _
          h1 in
      let clean_out =
        truncate_output-clean p _ o.0 cfg.output_limit o.1 s.opaque (redacted cfg p out s)
          cut_out in
      let clean_err =
        truncate_output-clean p _ e.0 cfg.output_limit e.1 s.opaque (redacted cfg p err s)
          cut_err in
      subst (IsClean p name spec) (ok-injective _ r h2)
        (record { router = refl; description = refl; out_clean = clean_out; err_clean = clean_err })

  pub result-IsClean :
      (name : Text) (spec : CommandSpec) (code : ℤ) (out err : Text) (extra : Extra)
      (t : List Event) (r : RunResult)
      → (result cfg remote routers name spec code out err extra t).0 ≡ returned r
      → IsClean p name spec r
  unfolding result
  result-IsClean name spec code out err extra t r h =
      result_at-IsClean name spec code out err extra (remote.elapsed t) r (
        lift-returned (result_at cfg remote routers name spec code out err extra (remote.elapsed t))
          t r h)

  abbrev IsCleanAttempt : Text → CommandSpec → Attempt → Type 0
  IsCleanAttempt name spec (output code out err) = Unit
  IsCleanAttempt name spec (reported r) = IsClean p name spec r

  attempt-IsClean :
      (name : Text) (spec : CommandSpec) (answer : Execution) (t : List Event) (left : Attempt)
      → (attempt cfg remote routers name spec answer t).0 ≡ returned left
      → IsCleanAttempt name spec left
  attempt-IsClean name spec answer t (output code out err) h = tt
  attempt-IsClean name spec (finished code out err) t (reported r) h = cc
  attempt-IsClean name spec timed_out t (reported r) h =
      let (q, now, done, same) =
        continue-returned
          (result cfg remote routers name spec (pos 124) [] (timeout_text cfg remote routers spec)
            (after_timeout spec.timeout_seconds) t)
          _ (reported r) h in
      subst (IsClean p name spec) (reported-injective q r same)
        (result-IsClean name spec (pos 124) [] _ _ t q done)
  attempt-IsClean name spec broken t (reported r) h = cc
  attempt-IsClean name spec endless t (reported r) h = cc

  report-IsClean :
      (name : Text) (spec : CommandSpec) (left : Attempt) (t : List Event) (r : RunResult)
      → IsCleanAttempt name spec left
      → (report cfg remote routers name spec left t).0 ≡ returned r
      → IsClean p name spec r
  report-IsClean name spec (output code out err) t r c h = result-IsClean name spec code _ _ _ t r h
  report-IsClean name spec (reported q) t r c h =
      subst (IsClean p name spec) (returned-injective q r h) c

  -- The body of `try`, in `run`.
  abbrev tried : Text → CommandSpec → Ssh Attempt
  tried name spec = do
    log (executed spec.command spec.timeout_seconds)
    answer ← asks remote.execute
    attempt cfg remote routers name spec answer

  -- On every way on which `run` returns a result, neither of the two outputs in it holds the password
  -- or the token, where that is an opaque secret; its router is the name that was asked for, and its
  -- description that of the command.
  pub run-IsClean :
      (name : Text) (spec : CommandSpec) (t : List Event) (r : RunResult)
      → (run cfg remote routers name spec t).0 ≡ returned r
      → IsClean p name spec r
  unfolding run
  run-IsClean name spec t r h =
      let (router, t1, found, h1) =
        continue-returned (lift (resolve_router routers name) t) _ r h in
      let (_, t2, there, h2) =
        continue-returned (connect cfg remote routers router.host router.port t1) _ r h1 in
      let (left, t3, got, h3) =
        continue-returned (finally_close (tried name spec) t2) (report cfg remote routers name spec)
          r h2 in
      let begun = t2 ++ executed spec.command spec.timeout_seconds ∷ [] in
      report-IsClean name spec left t3 r
        (attempt-IsClean name spec (remote.execute begun) begun left
          (close-returned (tried name spec t2) left got))
        h3
