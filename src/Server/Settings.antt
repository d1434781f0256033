-- ===== src/Server/Settings.antt =====
-- `Settings.from_env` of mcp_server/server.py. The environment is a function, `os.getenv`.
use openwrt_grafana_monitor.Prelude.{
  Bool, List, Option, [], arith, below, false, is_empty, length, ltb, none, pos, some, true, ℤ,
  ◌||◌, ◌∷◌, ◌≡◌, ◌≢◌, ◌≤◌,
}
use openwrt_grafana_monitor.Text.{Text, codes, parse_int, strip, text_eq, text_eq_refl}
use openwrt_grafana_monitor.Policy.Result.{Error, Result, value_error}
use openwrt_grafana_monitor.Policy.HostKeys.{
  HostKeyPolicy, default_known_hosts_path, resolve_host_key_policy,
}
use openwrt_grafana_monitor.Policy.Validate.{comma_parts, resolve_setup_timeout_seconds}

pub record Settings : Type 0 where
  pub routers_raw : Text
  pub username : Text
  pub password : Text
  pub token : Text
  pub allowed_hosts : List Text
  pub allowed_origins : List Text
  pub ssh_timeout_seconds : ℤ
  pub setup_timeout_seconds : ℤ
  pub output_limit : ℤ
  pub repo_openwrt_dir : Text
  pub host_key_policy : HostKeyPolicy

-- The exceptions at start: the `RuntimeError`s of `from_env`, and those of the calls in it.
pub data StartError : Type 0 where
  username_required password_required token_weak : StartError
  raised : Error → StartError

pub data Start {ℓ} (A : Type ℓ) : Type ℓ where
  started : A → Start A
  failed : StartError → Start A

infixl 5 ◌>>=◌ ◌>>◌
abbrev ◌>>=◌ {ℓ κ} : {A : Type ℓ} {B : Type κ} → Start A → (A → Start B) → Start B
started a >>= f = f a
failed e >>= f = failed e

abbrev ◌>>◌ {ℓ} : {B : Type ℓ} → Start (Unit {0}) → Start B → Start B
m >> k = m >>= λ _. k

abbrev fail_if : Bool → StartError → Start (Unit {0})
fail_if true e = failed e
fail_if false e = started tt

abbrev lift {ℓ} : {A : Type ℓ} → Result A → Start A
lift (Result.ok a) = started a
lift (Result.err e) = failed (raised e)

-- `os.getenv(name, default)`
abbrev or_default : Option Text → Text → Text
or_default none t = t
or_default (some s) t = s

-- `_csv_set`, a set as the list of its members
unfoldable pub csv_set : Text → List Text
unfolding comma_parts
csv_set raw = comma_parts raw

abbrev int_or_error : Option ℤ → Result ℤ
int_or_error none = Result.err value_error
int_or_error (some n) = Result.ok n

-- `_int_env`, on what `os.getenv(name)` returned
unfoldable pub int_env : Option Text → ℤ → Result ℤ
unfolding parse_int
int_env none default = Result.ok default
int_env (some []) default = Result.ok default
int_env (some (c ∷ s)) default = int_or_error (parse_int (c ∷ s))

abbrev default_routers : Text
default_routers = codes "openwrt-main=192.168.0.1,openwrt-new=192.168.0.2"

abbrev pub default_output_limit : ℤ
default_output_limit = pos 12000

abbrev pub default_token : Text
default_token = codes "change-me-openwrt-mcp-token"

unfoldable pub from_env : (Text → Option Text) → Start Settings
from_env getenv = do
  let username = strip (or_default (getenv (codes "OPENWRT_SSH_USERNAME")) [])
  let password = or_default (getenv (codes "OPENWRT_SSH_PASSWORD")) []
  let token = or_default (getenv (codes "OPENWRT_MCP_TOKEN")) []
  fail_if (is_empty username) username_required
  fail_if (is_empty password) password_required
  fail_if (ltb (length token) 16 || text_eq token default_token) token_weak
  let keys =
      resolve_host_key_policy
        (some (or_default (getenv (codes "OPENWRT_MCP_KNOWN_HOSTS")) default_known_hosts_path))
        (getenv (codes "OPENWRT_MCP_INSECURE_HOST_KEYS"))
  ssh_timeout ← lift (int_env (getenv (codes "OPENWRT_MCP_SSH_TIMEOUT")) (pos 15))
  setup_timeout ← lift (resolve_setup_timeout_seconds (getenv (codes "OPENWRT_MCP_SETUP_TIMEOUT")))
  limit ← lift (int_env (getenv (codes "OPENWRT_MCP_OUTPUT_LIMIT")) default_output_limit)
  started (record {
    routers_raw = or_default (getenv (codes "OPENWRT_MCP_ROUTERS")) default_routers;
    username = username;
    password = password;
    token = token;
    allowed_hosts =
        csv_set
          (or_default (getenv (codes "OPENWRT_MCP_ALLOWED_HOSTS")) (codes "127.0.0.1,localhost"));
    allowed_origins = csv_set (or_default (getenv (codes "OPENWRT_MCP_ALLOWED_ORIGINS")) []);
    ssh_timeout_seconds = ssh_timeout;
    setup_timeout_seconds = setup_timeout;
    output_limit = limit;
    repo_openwrt_dir = or_default (getenv (codes "OPENWRT_MCP_OPENWRT_DIR")) (codes "/app/openwrt");
    host_key_policy = keys;
  })

-- Settings that start have a user, a password and a token of their own, of sixteen characters or
-- more, and the time for a setup is at least a second.
pub record IsSecured (s : Settings) : Type 0 where
  pub named : s.username ≢ []
  pub secret : s.password ≢ []
  pub token_long : 16 ≤ length s.token
  pub token_own : s.token ≢ default_token
  pub setup_positive : below s.setup_timeout_seconds 1 ≡ false

resolve_positive :
    (raw : Option Text) (t : ℤ)
    → resolve_setup_timeout_seconds raw ≡ Result.ok t
    → below t 1 ≡ false
unfolding resolve_setup_timeout_seconds
resolve_positive raw t h = ground arith

-- Settings that start have a user, a password and a token of their own, of sixteen characters or
-- more, and the time for a setup is at least a second.
pub from_env-IsSecured :
    (getenv : Text → Option Text) (s : Settings) → from_env getenv ≡ started s → IsSecured s
unfolding from_env
from_env-IsSecured getenv s h = record {
  named = ground arith;
  secret = ground arith;
  token_long = ground arith;
  token_own = ground (arith, text_eq_refl default_token);
  setup_positive = ground (
    arith,
    resolve_positive (getenv (codes "OPENWRT_MCP_SETUP_TIMEOUT")) s.setup_timeout_seconds,
  );
}
