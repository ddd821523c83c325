-- ===== src/Properties/Defaults.antt =====
-- properties.go: the names of the environment's variables, and the defaults.
use smudge.Prelude.Text.{Text, runes, ℤ, pos}

abbrev pub env_var_heartbeat_millis : Text
env_var_heartbeat_millis = runes "SMUDGE_HEARTBEAT_MILLIS"

abbrev pub default_heartbeat_millis : ℤ
default_heartbeat_millis = pos 500

abbrev pub env_var_listen_port : Text
env_var_listen_port = runes "SMUDGE_LISTEN_PORT"

abbrev pub default_listen_port : ℤ
default_listen_port = pos 9999

abbrev pub env_var_max_broadcast_bytes : Text
env_var_max_broadcast_bytes = runes "SMUDGE_MAX_BROADCAST_BYTES"

abbrev pub default_max_broadcast_bytes : ℤ
default_max_broadcast_bytes = pos 256

abbrev pub env_var_min_ping_time : Text
env_var_min_ping_time = runes "SMUDGE_MIN_PING_TIME"

abbrev pub default_min_ping_time : ℤ
default_min_ping_time = pos 150

abbrev pub env_var_multicast_port : Text
env_var_multicast_port = runes "SMUDGE_MULTICAST_PORT"

abbrev pub default_multicast_port : ℤ
default_multicast_port = pos 9998

abbrev pub env_var_ping_history_frontload : Text
env_var_ping_history_frontload = runes "SMUDGE_PING_HISTORY_FRONTLOAD"

abbrev pub default_ping_history_frontload : ℤ
default_ping_history_frontload = pos 200

abbrev pub env_var_multicast_announce_interval_seconds : Text
env_var_multicast_announce_interval_seconds = runes "SMUDGE_MULTICAST_ANNOUNCE_INTERVAL"

abbrev pub default_multicast_announce_interval_seconds : ℤ
default_multicast_announce_interval_seconds = pos 0

abbrev pub env_var_cluster_name : Text
env_var_cluster_name = runes "SMUDGE_CLUSTER_NAME"

abbrev pub default_cluster_name : Text
default_cluster_name = runes "smudge"

abbrev pub env_var_initial_hosts : Text
env_var_initial_hosts = runes "SMUDGE_INITIAL_HOSTS"

abbrev pub default_initial_hosts : Text
default_initial_hosts = runes ""

abbrev pub env_var_listen_ip : Text
env_var_listen_ip = runes "SMUDGE_LISTEN_IP"

abbrev pub default_listen_ip : Text
default_listen_ip = runes "127.0.0.1"

abbrev pub env_var_multicast_address : Text
env_var_multicast_address = runes "SMUDGE_MULTICAST_ADDRESS"

abbrev pub default_multicast_address : Text
default_multicast_address = runes ""

abbrev pub env_var_multicast_enabled : Text
env_var_multicast_enabled = runes "SMUDGE_MULTICAST_ENABLED"

abbrev pub default_multicast_enabled : Text
default_multicast_enabled = runes "true"
