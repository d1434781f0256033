-- ===== src/Server/Session.antt =====
-- The SSH side of mcp_server/server.py. The network, paramiko and the clock are a parameter: what
-- they answer may depend on everything that has been done so far.
use openwrt_grafana_monitor.Prelude.{Bool, List, Option, [], ℕ, ℤ, ◌++◌, ◌∷◌}
use openwrt_grafana_monitor.Text.{Text}
use openwrt_grafana_monitor.Policy.Result.{Error, Result}

-- `AutoAddPolicy()` and `RejectPolicy()`, what a client does with a key that it does not know.
pub data MissingKeys : Type 0 where
  auto_add reject : MissingKeys

-- A `paramiko.SSHClient` as it is set up: the file that `load_host_keys` was called with, and the
-- policy that `set_missing_host_key_policy` was.
pub record Client : Type 0 where
  pub host_keys : Option Text
  pub missing_keys : MissingKeys

-- What the server does that can be seen from outside.
pub data Event : Type 0 where
  connected : Text → ℕ → Client → Event
  executed : Text → ℤ → Event
  sent : List ℕ → Event
  closed : Event

-- `client.connect`: it returns, or it raises `BadHostKeyException`, an `SSHException` with a
-- message, or something else.
pub data Connection : Type 0 where
  opened bad_host_key : Connection
  ssh_exception : Text → Connection
  unreachable : Connection

-- A command, from `exec_command` to the second `read`: its exit status and what it wrote, a timeout,
-- or another exception, wherever it comes from; or it never ends, and `recv_exit_status` waits for it
-- without a timeout.
pub data Execution : Type 0 where
  finished : ℤ → List ℕ → List ℕ → Execution
  timed_out broken endless : Execution

-- A channel that is polled: what each round of the loop finds on the two streams, what the two
-- loops behind it find, and the exit status; or an exception; or the exit status is never ready, and
-- the loop goes on.
pub data Transfer : Type 0 where
  polled : List (Option (List ℕ) × Option (List ℕ)) → List (List ℕ) → List (List ℕ) → ℤ → Transfer
  aborted never_ready : Transfer

pub record Remote : Type 0 where
  pub connect : List Event → Connection
  pub execute : List Event → Execution
  pub transfer : List Event → Transfer
  -- the rounded milliseconds between the two readings of the clock
  pub elapsed : List Event → ℕ
  -- `bytes.decode("utf-8", "replace")`
  pub decode : List ℕ → Text
  -- `known_hosts.is_file()`
  pub known_hosts_exists : Bool
  -- `repo_openwrt_dir.is_dir()`, and the archive of it
  pub payload_exists : Bool
  pub archive : List ℕ

pub data Exception : Type 0 where
  refused : Error → Exception
  ssh_failed : Text → Exception
  other : Exception

pub data Outcome {ℓ} (A : Type ℓ) : Type ℓ where
  returned : A → Outcome A
  raised : Exception → Outcome A
  -- it does not come back
  hung : Outcome A

-- An action over the events so far, the latest last.
abbrev pub Ssh {ℓ} : Type ℓ → Type ℓ
Ssh A = List Event → Outcome A × List Event

abbrev pub pure {ℓ} : {A : Type ℓ} → A → Ssh A
pure a t = (returned a, t)

abbrev pub raise {ℓ} : {A : Type ℓ} → Exception → Ssh A
raise e t = (raised e, t)

abbrev pub hang {ℓ} : {A : Type ℓ} → Ssh A
hang t = (hung, t)

abbrev pub lift {ℓ} : {A : Type ℓ} → Result A → Ssh A
lift (Result.ok a) t = (returned a, t)
lift (Result.err e) t = (raised (refused e), t)

abbrev pub log : Event → Ssh (Unit {0})
log e t = (returned tt, t ++ e ∷ [])

-- An answer of the outside.
abbrev pub asks {ℓ} : {A : Type ℓ} → (List Event → A) → Ssh A
asks f t = (returned (f t), t)

abbrev pub continue {ℓ κ} :
    {A : Type ℓ} {B : Type κ} → (A → Ssh B) → Outcome A × List Event → Outcome B × List Event
continue f (returned a, t) = f a t
continue f (raised e, t) = (raised e, t)
continue f (hung, t) = (hung, t)

infixl 5 ◌>>=◌ ◌>>◌
abbrev pub ◌>>=◌ {ℓ κ} : {A : Type ℓ} {B : Type κ} → Ssh A → (A → Ssh B) → Ssh B
◌>>=◌ m f t = continue f (m t)

abbrev pub ◌>>◌ {ℓ κ} : {A : Type ℓ} {B : Type κ} → Ssh A → Ssh B → Ssh B
m >> k = m >>= λ _. k

abbrev pub close_at_end {ℓ} : {A : Type ℓ} → Outcome A × List Event → Outcome A × List Event
close_at_end (returned a, t) = (returned a, t ++ closed ∷ [])
close_at_end (raised e, t) = (raised e, t ++ closed ∷ [])
close_at_end (hung, t) = (hung, t)

-- `try: … finally: client.close()`
abbrev pub finally_close {ℓ} : {A : Type ℓ} → Ssh A → Ssh A
finally_close m t = close_at_end (m t)
