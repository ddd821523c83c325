-- ===== src/Registry/Addresses/Parse.antt =====
-- registry.go: parseNodeAddress at the addresses that it is meant for.
use smudge.Prelude.{
  ℕ, zero, suc, ◌+◌, ◌-◌, ◌*◌, ◌%◌, ◌^◌, ◌≤◌, ◌<◌, ◌≡◌, refl, sym, ap, subst, ◌∙◌, true, false,
  ◌&&◌, Option, none, some, List, [], ◌∷◌, ◌++◌, append_assoc, length, length-append, get_or, take,
  drop, take_append, drop_append, All, arith, leb, ltb, ◌==◌,
}
use native.Mathlib.Nat.{pow-suc, mul-le-mul_left}
use smudge.Prelude.Text.{Text}
use smudge.Prelude.Numerals.{value_of, AreDigits, numeral, horner}
use smudge.Net.{Ip}
use smudge.Registry.Addresses.{
  index_byte, parsed, split_port, split_bracketed, split_at, split_host_port, Error,
  parse_uint16_loop, Resolver, resolve, port_or, parse_split, parse_node_address,
}
use smudge.Registry.Addresses.Places.{
  Without, index_byte-found, last_index-found, has-Without, Without-append, numeral-Without,
}

positive_power : (n : ℕ) → 1 ≤ 10 ^ n
positive_power zero = omega arith
positive_power (suc n) = omega (arith, pow-suc 10 n, positive_power n)

at_most_shifted : (v n : ℕ) → v ≤ v * 10 ^ n
at_most_shifted v n = omega (arith, mul-le-mul_left v (positive_power n))

parse_uint16_loop-numeral :
    (ds : List ℕ) (v : ℕ)
    → All (λ k. k < 10) ds
    → v * 10 ^ length ds + value_of ds ≤ 65535
    → parse_uint16_loop v (numeral ds) ≡ (v * 10 ^ length ds + value_of ds, none)
unfolding parse_uint16_loop value_of
parse_uint16_loop-numeral [] v h fits = ap (λ n. (n, none)) (omega arith)
parse_uint16_loop-numeral (d ∷ ds) v h fits =
    let whole = horner v d ds in
    let digit : (leb 48 (d + 48) && leb (d + 48) 57) ≡ true = ground (arith, h.0) in
    let back : d + 48 - 48 ≡ d = omega arith in
    let small : v * 10 + d ≤ 65535 =
      omega (arith, at_most_shifted (v * 10 + d) (length ds), whole, fits) in
    let room : ltb 65535 (v * 10 + d) ≡ false = ground (arith, small) in
    rw (digit, back, room)
      (parse_uint16_loop-numeral ds (v * 10 + d) h.1 (omega (arith, whole, fits))
        ∙ ap (λ n. (n, none)) whole)

port_or-numeral :
    (port : ℕ) (ds : List ℕ)
    → AreDigits ds
    → value_of ds ≤ 65535
    → port_or port (numeral ds) ≡ (value_of ds, none)
port_or-numeral port [] h fits = absurd h
port_or-numeral port (d ∷ ds) h fits =
    parse_uint16_loop-numeral (d ∷ ds) 0 h (omega (arith, fits)) ∙ ap (λ n. (n, none)) (omega arith)

AreDigits-All : (ds : List ℕ) → AreDigits ds → All (λ k. k < 10) ds
AreDigits-All [] h = absurd h
AreDigits-All (d ∷ ds) h = h

-- Behind the last colon is the port.
split_port-parsed :
    (front port : Text) (j k i : ℕ) (host : Text)
    → i ≡ length front
    → Without b'[' (drop j (front ++ (b':' ∷ port)))
    → Without b']' (drop k (front ++ (b':' ∷ port)))
    → split_port (front ++ (b':' ∷ port)) i j k host ≡ parsed (host, port)
split_port-parsed front port j k i host e left right =
    rw (has-Without b'[' _ left, has-Without b']' _ right) (ap (λ s. parsed (host, s)) behind)
  where
    behind : drop (i + 1) (front ++ (b':' ∷ port)) ≡ port
    behind =
        ap (λ n. drop n (front ++ (b':' ∷ port)))
          (omega (arith, e, length-append front (b':' ∷ [])))
        ∙ ap (drop (length (front ++ (b':' ∷ [])))) (sym (append_assoc front (b':' ∷ []) port))
        ∙ drop_append (front ++ (b':' ∷ [])) port

first-ne :
    (host port : Text) → Without b'[' host → (get_or (host ++ (b':' ∷ port)) 0 0 == b'[') ≡ false
first-ne [] port h = refl
first-ne (c ∷ host) port h = ground (arith, h.0)

module _ (host port : Text) (right : Without b']' host) (left : Without b'[' host)
    (digits_only : (c : ℕ) → 57 < c → Without c port) where
  behind_colon : (c : ℕ) → 58 < c → Without c (b':' ∷ port)
  behind_colon c lt = ((λ e. omega (arith, e, lt)), digits_only c (omega (arith, lt)))

  split_host_port-plain :
      Without b':' host → split_host_port (host ++ (b':' ∷ port)) ≡ parsed (host, port)
  unfolding split_host_port
  split_host_port-plain colon =
      let text = host ++ (b':' ∷ port) in
      let front : take (length host) text ≡ host = take_append host (b':' ∷ port) in
      ap (split_at text) (last_index-found b':' host port (digits_only b':' (omega arith)))
      ∙ rw (first-ne host port left, front, has-Without b':' host colon)
          (split_port-parsed host port 0 0 (length host) host refl
            (Without-append b'[' host _ left (behind_colon b'[' (omega arith)))
            (Without-append b']' host _ right (behind_colon b']' (omega arith))))

  abbrev bracketed_front : Text
  bracketed_front = b'[' ∷ (host ++ (b']' ∷ []))

  -- The text with its brackets, parted at the last colon.
  abbrev parted : Text
  parted = bracketed_front ++ (b':' ∷ port)

  parted_as : parted ≡ (b'[' ∷ host) ++ (b']' ∷ (b':' ∷ port))
  parted_as = append_assoc (b'[' ∷ host) (b']' ∷ []) (b':' ∷ port)

  length-front : length bracketed_front ≡ length host + 2
  length-front = omega (arith, length-append host (b']' ∷ []))

  inner : (n : ℕ) → n ≡ length host → take n (drop 1 parted) ≡ host
  inner n e = rw e (
      ap (take (length host)) (append_assoc host (b']' ∷ []) (b':' ∷ port))
      ∙ take_append host (b']' ∷ (b':' ∷ port)))

  no_left : Without b'[' (drop 1 parted)
  no_left =
      Without-append b'[' (host ++ (b']' ∷ [])) (b':' ∷ port)
        (Without-append b'[' host (b']' ∷ []) left (omega arith, tt))
        (behind_colon b'[' (omega arith))

  no_right : (n : ℕ) → n ≡ length bracketed_front → Without b']' (drop n parted)
  no_right n e =
      subst (Without b']')
        (sym (ap (λ k. drop k parted) e ∙ drop_append bracketed_front (b':' ∷ port)))
        (behind_colon b']' (omega arith))

  split_bracketed-parted :
      split_bracketed parted (length bracketed_front) (some (suc (length host)))
      ≡ parsed (host, port)
  split_bracketed-parted =
      let short : (suc (length host) + 1 == length parted) ≡ false =
        ground (arith, length-append bracketed_front (b':' ∷ port), length-front) in
      let there : (suc (length host) + 1 == length bracketed_front) ≡ true =
        ground (arith, length-front) in
      rw (short, there, inner (suc (length host) - 1) (omega arith))
        (split_port-parsed bracketed_front port 1 (suc (length host) + 1) (length bracketed_front)
          host refl no_left (no_right (suc (length host) + 1) (omega (arith, length-front))))

  split_host_port-bracketed : split_host_port parted ≡ parsed (host, port)
  unfolding split_host_port
  split_host_port-bracketed =
      ap (split_at parted)
        (last_index-found b':' bracketed_front port (digits_only b':' (omega arith)))
      ∙ ap (split_bracketed parted (length bracketed_front)) (
          ap (index_byte b']') parted_as
          ∙ index_byte-found b']' (b'[' ∷ host) (b':' ∷ port) ((λ e. omega (arith, e)), right))
      ∙ split_bracketed-parted

-- The two ways to write a host and a port: `host:port`, and `[host]:port`, where the host may have
-- colons.
pub data Form : Type 0 where
  plain bracketed : Form

abbrev pub written : Form → Text → Text → Text
written plain host port = host ++ (b':' ∷ port)
written bracketed host port = b'[' ∷ (host ++ (b']' ∷ (b':' ∷ port)))

abbrev pub FormOk : Form → Text → Type 0
FormOk plain host = Without b':' host
FormOk bracketed host = Unit {0}

split_host_port-written :
    (form : Form) (host : Text) (ds : List ℕ)
    → Without b'[' host
    → Without b']' host
    → FormOk form host
    → AreDigits ds
    → split_host_port (written form host (numeral ds)) ≡ parsed (host, numeral ds)
split_host_port-written plain host ds left right colon h =
    split_host_port-plain host (numeral ds) right left
      (λ c lt. numeral-Without c ds lt (AreDigits-All ds h)) colon
split_host_port-written bracketed host ds left right colon h =
    ap (λ t. split_host_port (b'[' ∷ t)) (sym (append_assoc host (b']' ∷ []) _))
    ∙ split_host_port-bracketed host (numeral ds) right left
        (λ c lt. numeral-Without c ds lt (AreDigits-All ds h))

-- parseNodeAddress reads an IP and a port that are written `ip:port` or `[ip]:port`, the port in
-- decimal and below 65536: it gives the IP that ParseIP gives, if it gives one, this port, and no
-- error.
pub parse_node_address-written :
    (r : Resolver) (form : Form) (host : Text) (ds : List ℕ) (b : ℕ) (ip : Ip)
    → Without b'[' host
    → Without b']' host
    → FormOk form host
    → AreDigits ds
    → value_of ds ≤ 65535
    → r.parse_ip host ≡ b ∷ ip
    → parse_node_address r (written form host (numeral ds)) ≡ (b ∷ ip, value_of ds, none)
unfolding parse_node_address
parse_node_address-written r form host ds b ip left right colon h fits e =
    ap (parse_split r (written form host (numeral ds)))
      (split_host_port-written form host ds left right colon h)
    ∙ ap (λ found. resolve r host found (port_or (r.listen_port % 2 ^ 16) (numeral ds))) e
    ∙ ap (λ (read : ℕ × Option Error). (b ∷ ip, read.0, read.1))
        (port_or-numeral (r.listen_port % 2 ^ 16) ds h fits)
