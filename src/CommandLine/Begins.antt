-- ===== src/CommandLine/Begins.antt =====
-- smudge/smudge.go: what main hands over to Begin.
use smudge.Prelude.{
  ℕ, ◌%◌, ◌^◌, ◌≡◌, ◌≤◌, length, arith, refl, ap, sym, subst, ◌∙◌, Bool-cases, inl, inr,
  if◌then◌else◌, Option, none, some, List, [], ◌∷◌, ◌++◌,
}
use smudge.Prelude.Text.{Text, ℤ, pos}
use smudge.Net.{Ip}
use smudge.Log.{Logging, log_info_level, set_log_threshold}
use smudge.Properties.{
  Properties, get_int_var, nonzero_or, present_or, get_listen_port, set_listen_port,
  get_heartbeat_millis, set_heartbeat_millis, get_max_broadcast_bytes, set_max_broadcast_bytes,
  set_listen_ip,
}
use smudge.Properties.Defaults.{env_var_listen_port, default_listen_port, default_heartbeat_millis}
use smudge.Properties.Settings.{nonzero_or_twice}
use smudge.Registry.Addresses.{
  Error, lookup_failure, is_v4, get_local_ip, last_index, split_at, split_host_port, parse_split,
  resolve, looked_up, Resolver, parse_node_address,
}
use smudge.CommandLine.{
  World, Flags, Call, prints, begins, Outcome, first_node, settings, limit_broadcasts, main, run,
  resolver_of, calls_for,
}

parse_node_address-unknown :
    (r : Resolver) (name : Text)
    → last_index b':' name ≡ none
    → r.parse_ip name ≡ []
    → r.lookup_ip name ≡ none
    → parse_node_address r name ≡ ([], r.listen_port % 2 ^ 16, some lookup_failure)
unfolding parse_node_address split_host_port
parse_node_address-unknown r name no_port no_ip lost =
    ap (λ i. parse_split r name (split_at name i)) no_port
    ∙ ap (λ ip. resolve r name ip (r.listen_port % 2 ^ 16, none)) no_ip
    ∙ ap (looked_up r (r.listen_port % 2 ^ 16) none) lost

-- The values that the flags or their defaults give.
abbrev pub port_of : World → Flags → Properties → ℤ
port_of w flags p = present_or flags.port (get_listen_port w.environ p).1

abbrev pub heartbeat_of : World → Flags → Properties → ℤ
heartbeat_of w flags p = present_or flags.heartbeat (get_heartbeat_millis w.environ p).1

-- What the settings are, as the getters read them, and the log's threshold.
abbrev pub IsConfigured : World → ℤ → ℤ → Ip → ℤ → Outcome → Type 0
IsConfigured w port heartbeat ip bytes o =
    ((get_listen_port w.environ o.properties).1 ≡ nonzero_or port default_listen_port)
    × ((get_heartbeat_millis w.environ o.properties).1
        ≡ nonzero_or heartbeat default_heartbeat_millis)
    × ((get_max_broadcast_bytes w.environ o.properties).1 ≡ (if is_v4 ip then bytes else pos 512))
    × (o.logging.log_threshhold ≡ log_info_level)

abbrev asked : World → ℤ
asked w = get_int_var w.environ env_var_listen_port default_listen_port

-- Making a node for an address does not change what the getters read.
run-IsConfigured :
    (w : World) (p : Properties) (l : Logging) (node : Text) (port heartbeat : ℤ) (ip : Ip)
    → IsConfigured w port heartbeat ip
        (get_max_broadcast_bytes w.environ p).1
        (run w p l node port heartbeat (some ip))
unfolding first_node settings limit_broadcasts get_listen_port set_listen_port get_heartbeat_millis
    set_heartbeat_millis get_max_broadcast_bytes set_max_broadcast_bytes set_listen_ip
    set_log_threshold
run-IsConfigured w p l [] port heartbeat ip =
    let listens = nonzero_or_twice port _ 9998 in
    let beats = nonzero_or_twice heartbeat _ 499 in
    elim (Bool-cases (is_v4 ip)) [
      | inl v4 ↦ rw v4 (listens, beats, refl, refl)
      | inr v6 ↦ rw v6 (listens, beats, refl, refl)
    ]
run-IsConfigured w p l (c ∷ node) port heartbeat ip =
    let listens =
      ap (λ v. nonzero_or v (asked w)) (nonzero_or_twice port (asked w) 9998)
      ∙ nonzero_or_twice port (asked w) 9998 in
    let beats = nonzero_or_twice heartbeat _ 499 in
    elim (Bool-cases (is_v4 ip)) [
      | inl v4 ↦ rw v4 (listens, beats, refl, refl)
      | inr v6 ↦ rw v6 (listens, beats, refl, refl)
    ]

-- The settings after the defaults of the flags were read.
abbrev looked : World → Properties → Properties
looked w p = (get_heartbeat_millis w.environ (get_listen_port w.environ p).0).0

main-run :
    (w : World) (flags : Flags) (p : Properties) (l : Logging) (ip : Ip)
    → get_local_ip w.interface_addrs ≡ some ip
    → main w flags p l
      ≡ run w (looked w p) l flags.node (port_of w flags p) (heartbeat_of w flags p) (some ip)
unfolding main get_listen_port get_heartbeat_millis
main-run w flags p l ip local =
    ap (run w (looked w p) l flags.node (port_of w flags p) (heartbeat_of w flags p)) local

calls_for-few : (t : Ip × ℕ × Option Error) → length (calls_for t) ≤ 1
calls_for-few (ip, port, none) = omega arith
calls_for-few (ip, port, some e) = omega arith

first_node-few : (w : World) (p : Properties) (node : Text) → length (first_node w p node).1 ≤ 1
unfolding first_node
first_node-few w p [] = omega arith
first_node-few w p (c ∷ node) = calls_for-few _

-- Where GetLocalIP gives an address, main makes at most one other call, and then calls Begin; the
-- getters then give the port and the heartbeat interval of the flags, or what they gave before where
-- a flag is missing, with the default in place of 0, and 512 bytes for a broadcast if the address is
-- not IPv4; the log's threshold is Info.
pub main-begins :
    (w : World) (flags : Flags) (p : Properties) (l : Logging) (ip : Ip)
    → get_local_ip w.interface_addrs ≡ some ip
    → (calls : List Call) × ((main w flags p l).calls ≡ calls ++ (begins ∷ []))
      × (length calls ≤ 1)
      × IsConfigured w
          (port_of w flags p)
          (heartbeat_of w flags p)
          ip
          (get_max_broadcast_bytes w.environ p).1
          (main w flags p l)
unfolding get_listen_port get_heartbeat_millis get_max_broadcast_bytes
main-begins w flags p l ip local =
    let p1 = looked w p in
    let ready =
      run-IsConfigured w p1 l flags.node (port_of w flags p) (heartbeat_of w flags p) ip in
    let q = settings w p1 (port_of w flags p) (heartbeat_of w flags p) ip in
    (
      (first_node w q flags.node).1,
      ap (λ (o : Outcome). o.calls) (main-run w flags p l ip local),
      first_node-few w q flags.node,
      subst (IsConfigured w (port_of w flags p) (heartbeat_of w flags p) ip _)
          (sym (main-run w flags p l ip local)) ready,
    )

-- Given the flag -node with a name without a port that no lookup finds, main prints the error, adds no
-- node, and begins all the same.
pub main-unknown :
    (w : World) (flags : Flags) (p : Properties) (l : Logging) (ip : Ip) (c : ℕ) (name : Text)
    → get_local_ip w.interface_addrs ≡ some ip
    → flags.node ≡ c ∷ name
    → last_index b':' (c ∷ name) ≡ none
    → w.parse_ip (c ∷ name) ≡ []
    → w.lookup_ip (c ∷ name) ≡ none
    → (main w flags p l).calls ≡ prints lookup_failure ∷ begins ∷ []
unfolding first_node
main-unknown w flags p l ip c name local given no_port no_ip lost =
    let q = settings w (looked w p) (port_of w flags p) (heartbeat_of w flags p) ip in
    let (p1, listen_port) = get_listen_port w.environ q in
    let unread =
      parse_node_address-unknown (resolver_of w p1 listen_port) (c ∷ name) no_port no_ip lost in
    ap (λ (o : Outcome). o.calls) (main-run w flags p l ip local)
    ∙ ap (λ node. (first_node w q node).1 ++ (begins ∷ [])) given
    ∙ ap (λ t. calls_for t ++ (begins ∷ [])) unread
