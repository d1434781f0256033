-- ===== src/Server/Middleware.antt =====
-- `SecurityMiddleware.dispatch` of mcp_server/server.py.
use openwrt_grafana_monitor.Prelude.{
  Bool, List, Option, [], ap, arith, false, if◌then◌else◌, inl, inr, is_empty, none, not, refl,
  some, subst, sym, true, ◌&&◌, ◌++◌, ◌↔◌, ◌∷◌, ◌≡◌, ◌⊎◌,
}
use openwrt_grafana_monitor.Text.{
  Text, codes, elem, has_char, or_empty, rsplit_once, text_eq, text_eq_refl, text_eq→eq,
}
use openwrt_grafana_monitor.Server.Settings.{Settings}
use openwrt_grafana_monitor.Text.Laws.Rsplit.{
  none-rsplit_once, rsplit_once-last, rsplit_once-none, some-rsplit_once,
}

-- A request as the middleware looks at it: its path, and `request.headers.get`.
pub record Request : Type 0 where
  pub path : Text
  pub header : Text → Option Text

pub data Response : Type 0 where
  forwarded : Response
  host_refused origin_refused unauthorized : Response

-- The host without a port: what stands before the last colon.
abbrev before_colon : Text → Option (Text × Text) → Text
before_colon host_header none = host_header
before_colon host_header (some (host, port)) = host

unfoldable pub request_host : Request → Text
unfolding or_empty rsplit_once
request_host req =
    let host_header = or_empty (req.header (codes "host")) in
    before_colon host_header (rsplit_once b':' host_header)

abbrev header_is : Option Text → Text → Bool
header_is none t = false
header_is (some s) t = text_eq s t

unfoldable pub bearer : Text → Text
bearer token = codes "Bearer " ++ token

unfoldable pub dispatch : Settings → Request → Response
dispatch settings req =
    let origin = or_empty (req.header (codes "origin")) in
    if text_eq req.path (codes "/healthz")
    then forwarded
    else if not (is_empty settings.allowed_hosts)
        && not (elem (request_host req) settings.allowed_hosts)
    then host_refused
    else if not (is_empty origin) && not (elem origin settings.allowed_origins)
    then origin_refused
    else if not (header_is (req.header (codes "authorization")) (bearer settings.token))
    then unauthorized
    else forwarded

-- The host that a header names: what stands before the last colon, or the whole header where it has
-- none.
pub data NamedHost : Text → Text → Type 0 where
  bare : {host : Text} → has_char b':' host ≡ false → NamedHost host host
  with_port : (host port : Text) → has_char b':' port ≡ false → NamedHost (host ++ b':' ∷ port) host

-- The header of a request names a host that is one of the allowed ones.
abbrev pub HasAllowedHost : Settings → Request → Type 0
HasAllowedHost settings req =
    (host : Text) × NamedHost (or_empty (req.header (codes "host"))) host
    × (elem host settings.allowed_hosts ≡ true)

-- The conditions under which a request reaches the application.
pub data Admitted (settings : Settings) (req : Request) : Type 0 where
  health : req.path ≡ codes "/healthz" → Admitted settings req
  trusted :
      (settings.allowed_hosts ≡ []) ⊎ HasAllowedHost settings req
      → (or_empty (req.header (codes "origin")) ≡ [])
        ⊎ (elem (or_empty (req.header (codes "origin"))) settings.allowed_origins ≡ true)
      → req.header (codes "authorization") ≡ some (bearer settings.token)
      → Admitted settings req

is_empty-nil {ℓ} : {A : Type ℓ} (xs : List A) → is_empty xs ≡ true → xs ≡ []
is_empty-nil [] h = refl
is_empty-nil (x ∷ xs) h = cc

header_is-some : (o : Option Text) (t : Text) → header_is o t ≡ true → o ≡ some t
header_is-some none t h = cc
header_is-some (some s) t h = ap some (text_eq→eq s t h)

-- The four tests in a row.
passes :
    (b c d e : Bool)
    → (if b
        then forwarded
        else if c
        then host_refused
        else if d
        then origin_refused
        else if e
        then unauthorized
        else forwarded)
      ≡ forwarded
    → (b ≡ true) ⊎ ((c ≡ false) × (d ≡ false) × (e ≡ false))
passes b c d e h = ground arith

guard_open {ℓ} :
    {A : Type ℓ} (xs : List A) (b : Bool)
    → (not (is_empty xs) && not b) ≡ false
    → (xs ≡ []) ⊎ (b ≡ true)
guard_open [] b h = inl refl
guard_open (x ∷ xs) b h = inr (ground arith)

open_guard {ℓ} :
    {A : Type ℓ} (xs : List A) (b : Bool)
    → (xs ≡ []) ⊎ (b ≡ true)
    → (not (is_empty xs) && not b) ≡ false
open_guard [] b h = refl
open_guard (x ∷ xs) b (inl e) = cc
open_guard (x ∷ xs) b (inr e) = rw e

some-header_is : (o : Option Text) (t : Text) → o ≡ some t → header_is o t ≡ true
some-header_is o t e = rw e (text_eq_refl t)

before_colon-NamedHost :
    (s : Text) (o : Option (Text × Text)) → rsplit_once b':' s ≡ o → NamedHost s (before_colon s o)
before_colon-NamedHost s none e = bare (none-rsplit_once b':' s e)
before_colon-NamedHost s (some (host, port)) e =
    let (parts, last) = some-rsplit_once b':' s host port e in
    subst (λ t. NamedHost t host) (sym parts) (with_port host port last)

request_host-NamedHost :
    (req : Request) → NamedHost (or_empty (req.header (codes "host"))) (request_host req)
unfolding request_host
request_host-NamedHost req = before_colon-NamedHost _ _ refl

-- A header names one host only.
named_host : {s host : Text} → NamedHost s host → before_colon s (rsplit_once b':' s) ≡ host
named_host {s} (bare h) = ap (before_colon s) (rsplit_once-none b':' s h)
named_host (with_port host port h) = ap (before_colon _) (rsplit_once-last b':' host port h)

named-request_host :
    (req : Request) {host : Text}
    → NamedHost (or_empty (req.header (codes "host"))) host
    → request_host req ≡ host
unfolding request_host
named-request_host req n = named_host n

host_allowed :
    (settings : Settings) (req : Request)
    → (settings.allowed_hosts ≡ []) ⊎ (elem (request_host req) settings.allowed_hosts ≡ true)
    → (settings.allowed_hosts ≡ []) ⊎ HasAllowedHost settings req
host_allowed settings req (inl e) = inl e
host_allowed settings req (inr e) = inr (request_host req, request_host-NamedHost req, e)

allowed_host :
    (settings : Settings) (req : Request)
    → (settings.allowed_hosts ≡ []) ⊎ HasAllowedHost settings req
    → (settings.allowed_hosts ≡ []) ⊎ (elem (request_host req) settings.allowed_hosts ≡ true)
allowed_host settings req (inl e) = inl e
allowed_host settings req (inr (host, n, e)) =
    inr (subst (λ h. elem h settings.allowed_hosts ≡ true) (sym (named-request_host req n)) e)

module _ (settings : Settings) (req : Request) where
  dispatch→Admitted : dispatch settings req ≡ forwarded → Admitted settings req
  unfolding dispatch
  dispatch→Admitted h = elim (passes _ _ _ _ h) [
    | inl e ↦ health (text_eq→eq _ _ e)
    | inr (c, d, e) ↦
        trusted
          (host_allowed settings req
            (guard_open settings.allowed_hosts (elem (request_host req) settings.allowed_hosts) c))
          (guard_open (or_empty (req.header (codes "origin")))
            (elem (or_empty (req.header (codes "origin"))) settings.allowed_origins) d)
          (header_is-some _ _ (ground arith))
  ]

  Admitted→dispatch : Admitted settings req → dispatch settings req ≡ forwarded
  unfolding dispatch
  Admitted→dispatch (health e) = rw (e, text_eq_refl (codes "/healthz"))
  Admitted→dispatch (trusted c d e) = ground (
    arith,
    open_guard settings.allowed_hosts _ (allowed_host settings req c),
    open_guard (or_empty (req.header (codes "origin"))) _ d,
    some-header_is _ _ e,
  )

-- A request reaches the application exactly if it asks for /healthz, or it bears the token, names an
-- allowed origin or none, and names an allowed host, where hosts are configured at all.
pub dispatch-Admitted :
    (settings : Settings) (req : Request)
    → (dispatch settings req ≡ forwarded) ↔ Admitted settings req
dispatch-Admitted settings req = (dispatch→Admitted settings req, Admitted→dispatch settings req)
