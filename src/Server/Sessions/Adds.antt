-- ===== src/Server/Sessions/Adds.antt =====
-- What actions add to the record of events, and how that composes.
use openwrt_grafana_monitor.Prelude.{
  List, [], ap, append-nil, append_assoc, refl, subst, sym, ◌++◌, ◌∙◌, ◌∷◌, ◌≡◌,
}
use openwrt_grafana_monitor.Server.Session.{
  Event, Outcome, Remote, Ssh, close_at_end, closed, continue, hung, lift, pure, raised, returned,
  ◌>>=◌,
}
use openwrt_grafana_monitor.Server.Sessions.{Comes, Comes-Leaves, Leaves, Leaves-append, idle}
use openwrt_grafana_monitor.Policy.Inventory.{Inventory}
use openwrt_grafana_monitor.Policy.Result.{Result}
use openwrt_grafana_monitor.Policy.HostKeys.{KeyPolicy}

-- An action that is not seen from outside, and comes back.
abbrev pub Quiet : {A : Type 0} → Ssh A → Type 0
Quiet m = (t : List Event) → ((m t).1 ≡ t) × Comes (m t).0

pub Quiet-lift : {A : Type 0} (r : Result A) → Quiet (lift r)
Quiet-lift (Result.ok a) t = (refl, tt)
Quiet-lift (Result.err e) t = (refl, tt)

pub continue-Quiet :
    {A B : Type 0} (f : A → Ssh B) (end : Outcome A × List Event)
    → Comes end.0
    → ((a : A) → Quiet (f a))
    → ((continue f end).1 ≡ end.1) × Comes (continue f end).0
continue-Quiet f (returned a, t) c h = h a t
continue-Quiet f (raised e, t) c h = (refl, tt)
continue-Quiet f (hung, t) c h = absurd c

pub Quiet-bind :
    {A B : Type 0} (m : Ssh A) (f : A → Ssh B) → Quiet m → ((a : A) → Quiet (f a)) → Quiet (m >>= f)
Quiet-bind m f hm hf t =
    let (same, comes) = continue-Quiet f (m t) (hm t).1 hf in (same ∙ (hm t).0, comes)

-- Behind a body that comes back, the client is closed.
pub closed_after :
    {A B : Type 0} (end : Outcome A × List Event) (after : A → Ssh B) (t : List Event)
    → Comes end.0
    → end.1 ≡ t
    → ((a : A) → Quiet (after a))
    → ((continue after (close_at_end end)).1 ≡ t ++ closed ∷ [])
      × Comes (continue after (close_at_end end)).0
closed_after (returned a, u) after t c same h =
    let (quiet, comes) = h a (u ++ closed ∷ []) in (quiet ∙ ap (λ v. v ++ closed ∷ []) same, comes)
closed_after (raised e, u) after t c same h = (ap (λ v. v ++ closed ∷ []) same, tt)
closed_after (hung, u) after t c same h = absurd c

-- An action only adds a row of sessions, the last of them open where it does not come back.
pub record Adds {A : Type 0} (routers : Inventory) (keys : KeyPolicy) (remote : Remote) (m : Ssh A)
    : Type 0 where
  pub at :
      (t : List Event)
      → (new : List Event) × ((m t).1 ≡ t ++ new) × Leaves routers keys remote (m t).0 t new

module _ {routers : Inventory} {keys : KeyPolicy} {remote : Remote} where
  pub Adds-Quiet : {A : Type 0} (m : Ssh A) → Quiet m → Adds routers keys remote m
  Adds-Quiet m h = record {
    at = λ t.
        ([], (h t).0 ∙ sym (append-nil t), Comes-Leaves routers keys remote (m t).0 (h t).1 idle);
  }

  pub Adds-lift : {A : Type 0} (r : Result A) → Adds routers keys remote (lift r)
  Adds-lift r = Adds-Quiet (lift r) (Quiet-lift r)

  pub Adds-pure : {A : Type 0} (a : A) → Adds routers keys remote (pure a)
  Adds-pure a = Adds-Quiet (pure a) (λ t. (refl, tt))

  pub Adds-continue :
      {A B : Type 0} (f : A → Ssh B) (t : List Event) (r : Outcome A) (u new : List Event)
      → u ≡ t ++ new
      → Leaves routers keys remote r t new
      → ((a : A) → Adds routers keys remote (f a))
      → (all : List Event) × ((continue f (r, u)).1 ≡ t ++ all)
        × Leaves routers keys remote (continue f (r, u)).0 t all
  Adds-continue f t (raised e) u new same h hf = (new, same, h)
  Adds-continue f t hung u new same h hf = (new, same, h)
  Adds-continue f t (returned a) u new same h hf =
      let (more, then_same, k) = (hf a).at u in
      (
        new ++ more,
        then_same ∙ ap (λ v. v ++ more) same ∙ append_assoc t new more,
        Leaves-append routers keys remote (f a u).0 t new more h
            (subst (λ v. Leaves routers keys remote (f a u).0 v more) same k),
      )

  pub Adds-bind :
      {A B : Type 0} (m : Ssh A) (f : A → Ssh B)
      → Adds routers keys remote m
      → ((a : A) → Adds routers keys remote (f a))
      → Adds routers keys remote (m >>= f)
  Adds-bind m f hm hf = record {
    at = λ t. let (new, same, h) = hm.at t in Adds-continue f t (m t).0 (m t).1 new same h hf;
  }

module _ {routers : Inventory} {keys : KeyPolicy} {remote : Remote} where
  pub Adds-bind-lift :
      {A B : Type 0} (r : Result A) (f : A → Ssh B)
      → ((a : A) → r ≡ Result.ok a → Adds routers keys remote (f a))
      → Adds routers keys remote (lift r >>= f)
  Adds-bind-lift (Result.ok a) f h = record { at = (h a refl).at }
  Adds-bind-lift (Result.err e) f h = record { at = λ t. ([], sym (append-nil t), idle) }
