-- ===== src/Properties.antt =====
-- properties.go: the settings. Each is a package variable that its getter fills from the environment,
-- or with its default, while it has its zero value.
pub mod Split
pub mod Settings
pub mod Numbers
pub mod Defaults
use smudge.Prelude.{ℕ, Bool, true, false, Option, none, some, List, [], ◌∷◌, ◌==◌, if◌then◌else◌}
use smudge.Prelude.Text.{Text, runes, to_lower, ℤ, pos, negsuc, atoi}
use smudge.Net.{Ip}
use smudge.Properties.Defaults.{
  env_var_heartbeat_millis, default_heartbeat_millis, env_var_listen_port, default_listen_port,
  env_var_max_broadcast_bytes, default_max_broadcast_bytes, env_var_min_ping_time,
  default_min_ping_time, env_var_multicast_port, default_multicast_port,
  env_var_ping_history_frontload, default_ping_history_frontload,
  env_var_multicast_announce_interval_seconds, default_multicast_announce_interval_seconds,
  env_var_cluster_name, default_cluster_name, env_var_initial_hosts, default_initial_hosts,
  env_var_listen_ip, default_listen_ip, env_var_multicast_address, default_multicast_address,
  env_var_multicast_enabled, default_multicast_enabled,
}
use smudge.Properties.Split.{split_delimmited_string}

-- os.Getenv: the empty text for a variable that is not set.
abbrev pub Environ : Type 0
Environ = Text → Text

-- The package variables. A nil slice is none.
pub record Properties : Type 0 where
  pub cluster_name : Text
  pub heartbeat_millis : ℤ
  pub listen_port : ℤ
  pub listen_ip : Option Ip
  pub initial_hosts : Option (List Text)
  pub max_broadcast_bytes : ℤ
  pub min_ping_time : ℤ
  pub multicast_enabled_string : Text
  pub multicast_enabled : Bool
  pub multicast_announce_interval_seconds : ℤ
  pub multicast_port : ℤ
  pub multicast_address : Text
  pub ping_history_frontload : ℤ

abbrev pub initial_properties : Properties
initial_properties = record {
  cluster_name = [];
  heartbeat_millis = pos 0;
  listen_port = pos 0;
  listen_ip = none;
  initial_hosts = none;
  max_broadcast_bytes = pos 0;
  min_ping_time = pos 0;
  multicast_enabled_string = [];
  multicast_enabled = true;
  multicast_announce_interval_seconds = pos 10;
  multicast_port = pos 0;
  multicast_address = [];
  ping_history_frontload = pos 0;
}

-- `if v == 0` and `if v == ""`: another value in place of the zero value.
abbrev pub nonzero_or : ℤ → ℤ → ℤ
nonzero_or (pos n) other = if n == 0 then other else pos n
nonzero_or (negsuc n) other = negsuc n

abbrev pub nonempty_or : Text → Text → Text
nonempty_or [] other = other
nonempty_or (c ∷ s) other = c ∷ s

abbrev pub present_or {ℓ} : {A : Type ℓ} → Option A → A → A
present_or none other = other
present_or (some a) other = a

-- What is not an integer is only logged.
abbrev pub int_of : Text → ℤ → ℤ
int_of [] default_val = default_val
int_of (c ∷ s) default_val = present_or (atoi (c ∷ s)) default_val

unfoldable pub get_int_var : Environ → Text → ℤ → ℤ
get_int_var environ key default_val = int_of (environ key) default_val

unfoldable pub get_string_var : Environ → Text → Text → Text
get_string_var environ key default_val = nonempty_or (environ key) default_val

unfoldable pub get_string_array_var : Environ → Text → Text → Option (List Text)
get_string_array_var environ key default_val =
    split_delimmited_string (nonempty_or (environ key) default_val)

unfoldable pub get_heartbeat_millis : Environ → Properties → Properties × ℤ
get_heartbeat_millis environ p =
    let v =
      nonzero_or p.heartbeat_millis
        (get_int_var environ env_var_heartbeat_millis default_heartbeat_millis) in
    (record p { heartbeat_millis = v }, v)

unfoldable pub get_listen_port : Environ → Properties → Properties × ℤ
get_listen_port environ p =
    let v =
      nonzero_or p.listen_port (get_int_var environ env_var_listen_port default_listen_port) in
    (record p { listen_port = v }, v)

unfoldable pub get_max_broadcast_bytes : Environ → Properties → Properties × ℤ
get_max_broadcast_bytes environ p =
    let v =
      nonzero_or p.max_broadcast_bytes
        (get_int_var environ env_var_max_broadcast_bytes default_max_broadcast_bytes) in
    (record p { max_broadcast_bytes = v }, v)

unfoldable pub get_min_ping_time : Environ → Properties → Properties × ℤ
get_min_ping_time environ p =
    let v =
      nonzero_or p.min_ping_time
        (get_int_var environ env_var_min_ping_time default_min_ping_time) in
    (record p { min_ping_time = v }, v)

unfoldable pub get_multicast_port : Environ → Properties → Properties × ℤ
get_multicast_port environ p =
    let v =
      nonzero_or p.multicast_port
        (get_int_var environ env_var_multicast_port default_multicast_port) in
    (record p { multicast_port = v }, v)

unfoldable pub get_ping_history_frontload : Environ → Properties → Properties × ℤ
get_ping_history_frontload environ p =
    let v =
      nonzero_or p.ping_history_frontload
        (get_int_var environ env_var_ping_history_frontload default_ping_history_frontload) in
    (record p { ping_history_frontload = v }, v)

unfoldable pub get_multicast_announce_interval_seconds : Environ → Properties → Properties × ℤ
get_multicast_announce_interval_seconds environ p =
    let v = nonzero_or p.multicast_announce_interval_seconds (
      get_int_var environ env_var_multicast_announce_interval_seconds
        default_multicast_announce_interval_seconds) in
    (record p { multicast_announce_interval_seconds = v }, v)

unfoldable pub get_cluster_name : Environ → Properties → Properties × Text
get_cluster_name environ p =
    let v =
      nonempty_or p.cluster_name
        (get_string_var environ env_var_cluster_name default_cluster_name) in
    (record p { cluster_name = v }, v)

unfoldable pub get_multicast_address : Environ → Properties → Properties × Text
get_multicast_address environ p =
    let v =
      nonempty_or p.multicast_address
        (get_string_var environ env_var_multicast_address default_multicast_address) in
    (record p { multicast_address = v }, v)

-- A nil slice stays nil if the setting is blank.
abbrev pub hosts_or : Option (List Text) → Option (List Text) → Option (List Text)
hosts_or none other = other
hosts_or (some hosts) other = some hosts

unfoldable pub get_initial_hosts : Environ → Properties → Properties × Option (List Text)
get_initial_hosts environ p =
    let v =
      hosts_or p.initial_hosts
        (get_string_array_var environ env_var_initial_hosts default_initial_hosts) in
    (record p { initial_hosts = v }, v)

abbrev pub ip_or : Option Ip → Option Ip → Option Ip
ip_or none other = other
ip_or (some ip) other = some ip

-- `parse_ip` is net.ParseIP.
unfoldable pub get_listen_ip : (Text → Option Ip) → Environ → Properties → Properties × Option Ip
get_listen_ip parse_ip environ p =
    let v =
      ip_or p.listen_ip (parse_ip (get_string_var environ env_var_listen_ip default_listen_ip)) in
    (record p { listen_ip = v }, v)

-- `len(s) > 0 && []rune(s)[0] == 't'`.
abbrev pub starts_with_t : Text → Bool
starts_with_t [] = false
starts_with_t (c ∷ s) = c == b't'

unfoldable pub get_multicast_enabled : Environ → Properties → Properties × Bool
get_multicast_enabled environ p =
    let v =
      nonempty_or p.multicast_enabled_string
        (to_lower (get_string_var environ env_var_multicast_enabled default_multicast_enabled)) in
    let enabled = starts_with_t v in
    (record p { multicast_enabled_string = v; multicast_enabled = enabled }, enabled)

unfoldable pub set_heartbeat_millis : Properties → ℤ → Properties
set_heartbeat_millis p val = record p { heartbeat_millis = nonzero_or val default_heartbeat_millis }

unfoldable pub set_listen_port : Properties → ℤ → Properties
set_listen_port p val = record p { listen_port = nonzero_or val default_listen_port }

unfoldable pub set_max_broadcast_bytes : Properties → ℤ → Properties
set_max_broadcast_bytes p val = record p {
  max_broadcast_bytes = nonzero_or val default_max_broadcast_bytes;
}

unfoldable pub set_min_ping_time : Properties → ℤ → Properties
set_min_ping_time p val = record p { min_ping_time = nonzero_or val default_min_ping_time }

unfoldable pub set_multicast_port : Properties → ℤ → Properties
set_multicast_port p val = record p { multicast_port = nonzero_or val default_multicast_port }

unfoldable pub set_ping_history_frontload : Properties → ℤ → Properties
set_ping_history_frontload p val = record p {
  ping_history_frontload = nonzero_or val default_ping_history_frontload;
}

unfoldable pub set_cluster_name : Properties → Text → Properties
set_cluster_name p val = record p { cluster_name = nonempty_or val default_cluster_name }

unfoldable pub set_multicast_address : Properties → Text → Properties
set_multicast_address p val = record p {
  multicast_address = nonempty_or val default_multicast_address;
}

-- A call after nodes were added is only logged.
unfoldable pub set_listen_ip : (Text → Option Ip) → Properties → Option Ip → Properties
set_listen_ip parse_ip p val = record p { listen_ip = ip_or val (parse_ip default_listen_ip) }

-- `fmt.Sprintf("%v", val)`.
unfoldable pub set_multicast_enabled : Properties → Bool → Properties
set_multicast_enabled p val = record p {
  multicast_enabled_string = if val then runes "true" else runes "false";
}

unfoldable pub set_multicast_announce_interval_seconds : Properties → ℤ → Properties
set_multicast_announce_interval_seconds p val = record p {
  multicast_announce_interval_seconds = val;
}
