-- ===== src/Policy/HostKeys.antt =====
-- The host-key policy of mcp_server/core.py.
use openwrt_grafana_monitor.Prelude.{Bool, Option, false, if◌then◌else◌, true, ℕ, ◌++◌}
use openwrt_grafana_monitor.Text.{Text, codes, or_else, or_empty, show_ℕ, strip}
use openwrt_grafana_monitor.Policy.Validate.{env_flag}

-- The class names `RejectPolicy` and `AutoAddPolicy` of paramiko.
pub data KeyPolicy : Type 0 where
  reject_policy auto_add_policy : KeyPolicy

pub record HostKeyPolicy : Type 0 where
  pub policy : KeyPolicy
  pub known_hosts_path : Text
  pub insecure : Bool

abbrev pub default_known_hosts_path : Text
default_known_hosts_path = codes "/app/known_hosts"

unfoldable pub resolve_host_key_policy : Option Text → Option Text → HostKeyPolicy
unfolding strip or_empty or_else env_flag
resolve_host_key_policy known_hosts_path insecure_raw =
    let path = or_else (strip (or_empty known_hosts_path)) default_known_hosts_path in
    if env_flag insecure_raw
    then record { policy = auto_add_policy; known_hosts_path = path; insecure = true }
    else record { policy = reject_policy; known_hosts_path = path; insecure = false }

unfoldable pub host_key_failure_message : Text → ℕ → Text → Text
unfolding show_ℕ
host_key_failure_message host port known_hosts_path =
    codes "SSH host key verification failed for "
    ++ (host
        ++ (codes ":"
            ++ (show_ℕ port
                ++ (codes ". Add the router key to the operator-managed known_hosts file ("
                    ++ (known_hosts_path
                        ++ (codes "), for example: ssh-keyscan -H "
                            ++ (host
                                ++ (codes " >> known_hosts and mount that file read-only at "
                                    ++ (known_hosts_path
                                        ++ codes
                                            ". Only on a trusted network, set OPENWRT_MCP_INSECURE_HOST_KEYS=1 to disable host-key verification (not recommended).")))))))))
