-- ===== src/Properties/Settings.antt =====
-- properties.go: what a getter returns behind its setter.
use smudge.Prelude.{ℕ, zero, suc, ◌≡◌, refl, Bool, true, false, Option, none, some, [], ◌∷◌, arith}
use smudge.Prelude.Text.{Text, runes, ℤ, pos, negsuc}
use smudge.Net.{Ip}
use smudge.Properties.Defaults.{
  default_heartbeat_millis, default_listen_port, default_max_broadcast_bytes, default_min_ping_time,
  default_multicast_port, default_ping_history_frontload, default_cluster_name, default_listen_ip,
  env_var_listen_ip, env_var_multicast_address, default_multicast_address,
  env_var_multicast_announce_interval_seconds, default_multicast_announce_interval_seconds,
}
use smudge.Properties.{
  Environ, Properties, nonzero_or, nonempty_or, ip_or, get_int_var, get_string_var,
  get_heartbeat_millis, set_heartbeat_millis, get_listen_port, set_listen_port,
  get_max_broadcast_bytes, set_max_broadcast_bytes, get_min_ping_time, set_min_ping_time,
  get_multicast_port, set_multicast_port, get_ping_history_frontload, set_ping_history_frontload,
  get_cluster_name, set_cluster_name, get_multicast_address, set_multicast_address, get_listen_ip,
  set_listen_ip, get_multicast_enabled, set_multicast_enabled,
  get_multicast_announce_interval_seconds, set_multicast_announce_interval_seconds,
}

-- A default that is not zero is never asked for again.
pub nonzero_or_twice :
    (v other : ℤ) (n : ℕ)
    → nonzero_or (nonzero_or v (pos (suc n))) other ≡ nonzero_or v (pos (suc n))
nonzero_or_twice (pos zero) other n = ground arith
nonzero_or_twice (pos (suc m)) other n = ground arith
nonzero_or_twice (negsuc m) other n = refl

nonempty_or_twice :
    (v other : Text) (c : ℕ) (s : Text)
    → nonempty_or (nonempty_or v (c ∷ s)) other ≡ nonempty_or v (c ∷ s)
nonempty_or_twice [] other c s = refl
nonempty_or_twice (d ∷ v) other c s = refl

nonempty_or_nil : (v other : Text) → nonempty_or (nonempty_or v []) other ≡ nonempty_or v other
nonempty_or_nil [] other = refl
nonempty_or_nil (d ∷ v) other = refl

ip_or_twice :
    (v default other : Option Ip) → ip_or (ip_or v default) other ≡ ip_or v (ip_or default other)
ip_or_twice none default other = refl
ip_or_twice (some ip) default other = refl

enabled_read :
    (environ : Environ) (p : Properties) (b : Bool)
    → (get_multicast_enabled environ (set_multicast_enabled p b)).1 ≡ b
unfolding get_multicast_enabled set_multicast_enabled
enabled_read environ p true = refl
enabled_read environ p false = refl

-- What the getters return behind the setters.
abbrev pub SetThenGet :
    Environ → Properties → ℤ → Text → Text → Bool → (Text → Option Ip) → Option Ip → Type 0
SetThenGet environ p v name address enabled parse_ip ip =
    ((get_heartbeat_millis environ (set_heartbeat_millis p v)).1
      ≡ nonzero_or v default_heartbeat_millis)
    × ((get_listen_port environ (set_listen_port p v)).1 ≡ nonzero_or v default_listen_port)
    × ((get_max_broadcast_bytes environ (set_max_broadcast_bytes p v)).1
        ≡ nonzero_or v default_max_broadcast_bytes)
    × ((get_min_ping_time environ (set_min_ping_time p v)).1 ≡ nonzero_or v default_min_ping_time)
    × ((get_multicast_port environ (set_multicast_port p v)).1
        ≡ nonzero_or v default_multicast_port)
    × ((get_ping_history_frontload environ (set_ping_history_frontload p v)).1
        ≡ nonzero_or v default_ping_history_frontload)
    × ((get_cluster_name environ (set_cluster_name p name)).1
        ≡ nonempty_or name default_cluster_name)
    × ((get_multicast_enabled environ (set_multicast_enabled p enabled)).1 ≡ enabled)
    × ((get_multicast_announce_interval_seconds environ
          (set_multicast_announce_interval_seconds p v)).1
        ≡ nonzero_or v (
            get_int_var environ env_var_multicast_announce_interval_seconds
              default_multicast_announce_interval_seconds))
    × ((get_multicast_address environ (set_multicast_address p address)).1
        ≡ nonempty_or address
            (get_string_var environ env_var_multicast_address default_multicast_address))
    × ((get_listen_ip parse_ip environ (set_listen_ip parse_ip p ip)).1
        ≡ ip_or ip (
            ip_or (parse_ip default_listen_ip)
              (parse_ip (get_string_var environ env_var_listen_ip default_listen_ip))))

-- A getter returns what was set, whatever the environment has, or the default where the zero value was
-- set. Of the interval of announcements and the multicast address the zero value is the default: where
-- it was set, the getter reads the environment. Where a nil listen IP was set, the getter returns
-- what ParseIP makes of the default, or, if it makes nothing of it, of the environment's.
pub set_then_get :
    (environ : Environ) (p : Properties) (v : ℤ) (name address : Text) (enabled : Bool)
    (parse_ip : Text → Option Ip) (ip : Option Ip)
    → SetThenGet environ p v name address enabled parse_ip ip
unfolding get_heartbeat_millis set_heartbeat_millis get_listen_port set_listen_port
    get_max_broadcast_bytes set_max_broadcast_bytes get_min_ping_time set_min_ping_time
    get_multicast_port set_multicast_port get_ping_history_frontload set_ping_history_frontload
    get_cluster_name set_cluster_name get_multicast_enabled set_multicast_enabled
    get_multicast_announce_interval_seconds set_multicast_announce_interval_seconds
    get_multicast_address set_multicast_address get_listen_ip set_listen_ip
set_then_get environ p v name address enabled parse_ip ip = (
  nonzero_or_twice v _ 499,
  nonzero_or_twice v _ 9998,
  nonzero_or_twice v _ 255,
  nonzero_or_twice v _ 149,
  nonzero_or_twice v _ 9997,
  nonzero_or_twice v _ 199,
  nonempty_or_twice name _ b's' (runes "mudge"),
  enabled_read environ p enabled,
  refl,
  nonempty_or_nil address _,
  ip_or_twice ip _ _,
)
