-- ===== src/Message/Decode.antt =====
-- message.go: decodeMessage on the layouts that encode writes.
use smudge.Prelude.{
  ℕ, zero, suc, ◌+◌, ◌^◌, ◌<◌, ◌≤◌, ◌≡◌, refl, ap, subst, ◌∙◌, true, false, Option, none, some,
  List, [], ◌∷◌, ◌++◌, length, length-append, append_assoc, append-nil, arith, All, ltb, Bool-cases,
  inl, inr,
}
use smudge.Prelude.Outcome.{Outcome, ok, ◌>>=◌}
use smudge.Bytes.Little.{little, length-little}
use smudge.Net.{Ip}
use smudge.Wire.{slice_from, find_or_create}
use smudge.Wire.Read.{IsIpLen, expand}
use smudge.Wire.Rest.{
  Rest, Rest-start, Rest-advance, index-Rest, decode_ip-Rest, decode_uint16-Rest,
  decode_uint32-Rest, slice-Rest,
}
use smudge.Broadcast
use smudge.Registry.{create_node_by_ip}
use smudge.Cluster.{Cluster, Env, Broadcast, alloc}
use smudge.Message.Layout.{WireMember, IsFit, member_layout, members_layout, length-member_layout}
use smudge.Message.{
  MessageMember, Error, decode_member, decode_members_loop, decode_members, read_members,
  read_broadcast, lift_error,
}

-- The settings stay.
pub env-find_or_create :
    (c : Cluster) (ip : Ip) (port : ℕ) → (find_or_create c ip port).0.env ≡ c.env
unfolding find_or_create create_node_by_ip alloc
env-find_or_create c ip port = ground arith

-- A member as decodeMembers builds it, without the bytes: the two nodes are looked up, and made
-- where they are not known.
unfoldable pub resolve_member : ℕ → Cluster → WireMember → Cluster × MessageMember
resolve_member ip_len c w =
    let mnode = find_or_create c (expand ip_len w.ip) w.port in
    let snode = find_or_create mnode.0 (expand ip_len w.source_ip) w.source_port in
    (
      snode.0,
      record { source = some snode.1; heartbeat = w.heartbeat; node = mnode.1; status = w.status },
    )

unfoldable pub resolve_members : ℕ → Cluster → List WireMember → Cluster × List MessageMember
resolve_members ip_len c [] = (c, [])
resolve_members ip_len c (w ∷ ws) =
    let first = resolve_member ip_len c w in
    let others = resolve_members ip_len first.0 ws in (others.0, first.1 ∷ others.1)

pub env-resolve_member :
    (ip_len : ℕ) (c : Cluster) (w : WireMember) → (resolve_member ip_len c w).0.env ≡ c.env
unfolding resolve_member
env-resolve_member ip_len c w =
    env-find_or_create (find_or_create c (expand ip_len w.ip) w.port).0 (expand ip_len w.source_ip)
      w.source_port
    ∙ env-find_or_create c (expand ip_len w.ip) w.port

pub env-resolve_members :
    (ip_len : ℕ) (ws : List WireMember) (c : Cluster) → (resolve_members ip_len c ws).0.env ≡ c.env
unfolding resolve_members
env-resolve_members ip_len [] c = refl
env-resolve_members ip_len (w ∷ ws) c =
    env-resolve_members ip_len ws (resolve_member ip_len c w).0 ∙ env-resolve_member ip_len c w

-- The numbers of a member fit their widths.
pub record IsInRange (w : WireMember) : Type 0 where
  pub port_lt : w.port < 2 ^ 16
  pub heartbeat_lt : w.heartbeat < 2 ^ 32
  pub source_port_lt : w.source_port < 2 ^ 16

abbrev pub CanDecode : ℕ → WireMember → Type 0
CanDecode ip_len w = IsFit ip_len w × IsInRange w

decode_member-layout :
    (c : Cluster) (elems spare : List ℕ) (p : ℕ) (w : WireMember) (rest : List ℕ)
    → IsIpLen c.ip_len
    → CanDecode c.ip_len w
    → Rest elems p (member_layout w ++ rest)
    → decode_member c (record { elems = elems; spare = spare }) p
      ≡ ok (
        (resolve_member c.ip_len c w).0,
        (resolve_member c.ip_len c w).1,
        p + 1 + c.ip_len + 2 + 4 + c.ip_len + 2,
      )
unfolding decode_member resolve_member member_layout
decode_member-layout c elems spare p w rest h fit r =
    let parts =
      little 2 w.port ++ (little 4 w.heartbeat ++ (w.source_ip ++ little 2 w.source_port)) in
    let r0 : Rest elems p (w.status ∷ ((w.ip ++ parts) ++ rest)) = r in
    let r1 = simp append_assoc at (Rest-advance elems p (w.status ∷ []) _ 1 r0 refl) in
    let r2 = Rest-advance elems (p + 1) w.ip _ c.ip_len r1 fit.0.0 in
    let p2 = p + 1 + c.ip_len in
    let r3 = Rest-advance elems p2 (little 2 w.port) _ 2 r2 (length-little 2 w.port) in
    let r4 =
      Rest-advance elems (p2 + 2) (little 4 w.heartbeat) _ 4 r3 (length-little 4 w.heartbeat) in
    let r5 = Rest-advance elems (p2 + 2 + 4) w.source_ip _ c.ip_len r4 fit.0.1 in
    rw (
      index-Rest elems p w.status _ r0,
      decode_ip-Rest c.ip_len elems spare (p + 1) w.ip _ h fit.0.0 r1,
      decode_uint16-Rest elems p2 w.port _ r2 fit.1.port_lt,
      decode_uint32-Rest elems (p2 + 2) w.heartbeat _ r3 fit.1.heartbeat_lt,
      decode_ip-Rest c.ip_len elems spare (p2 + 2 + 4) w.source_ip _ h fit.0.1 r4,
      decode_uint16-Rest elems (p2 + 2 + 4 + c.ip_len) w.source_port _ r5 fit.1.source_port_lt,
    )

-- There is more to read exactly while something is left.
Rest-lt :
    (elems : List ℕ) (p x : ℕ) (rest : List ℕ)
    → Rest elems p (x ∷ rest)
    → ltb p (length elems) ≡ true
Rest-lt elems p x rest r = ground (arith, r.at, ap length r.split, length-append r.pre (x ∷ rest))

Rest-end : (elems : List ℕ) (p : ℕ) → Rest elems p [] → ltb p (length elems) ≡ false
Rest-end elems p r = ground (arith, r.at, ap length r.split, length-append r.pre [])

Rest-member :
    (ip_len : ℕ) (elems : List ℕ) (p : ℕ) (w : WireMember) (rest : List ℕ)
    → IsFit ip_len w
    → Rest elems p (member_layout w ++ rest)
    → Rest elems (p + 1 + ip_len + 2 + 4 + ip_len + 2) rest
Rest-member ip_len elems p w rest fit r =
    let q = Rest-advance elems p (member_layout w) rest _ r (length-member_layout ip_len w fit) in
    let e : p + (9 + ip_len + ip_len) ≡ p + 1 + ip_len + 2 + 4 + ip_len + 2 = omega arith in
    subst (λ k. Rest elems k rest) e q

starts :
    (elems : List ℕ) (p : ℕ) (w : WireMember) (rest : List ℕ)
    → Rest elems p (member_layout w ++ rest)
    → ltb p (length elems) ≡ true
unfolding member_layout
starts elems p w rest r = Rest-lt elems p w.status _ r

decode_member-layout_at :
    (ip_len : ℕ) (c : Cluster) (elems spare : List ℕ) (p : ℕ) (w : WireMember) (rest : List ℕ)
    → c.ip_len ≡ ip_len
    → IsIpLen ip_len
    → CanDecode ip_len w
    → Rest elems p (member_layout w ++ rest)
    → decode_member c (record { elems = elems; spare = spare }) p
      ≡ ok (
        (resolve_member ip_len c w).0,
        (resolve_member ip_len c w).1,
        p + 1 + ip_len + 2 + 4 + ip_len + 2,
      )
decode_member-layout_at ip_len c elems spare p w rest e =
    subst
      (λ k.
        IsIpLen k
        → CanDecode k w
        → Rest elems p (member_layout w ++ rest)
        → decode_member c (record { elems = elems; spare = spare }) p
          ≡ ok ((resolve_member k c w).0, (resolve_member k c w).1, p + 1 + k + 2 + 4 + k + 2))
      e (decode_member-layout c elems spare p w rest)

decode_members_loop-layout :
    (ip_len fuel : ℕ) (ws : List WireMember) (c : Cluster) (elems spare : List ℕ) (p : ℕ)
    (members : List MessageMember)
    → c.ip_len ≡ ip_len
    → IsIpLen ip_len
    → All (CanDecode ip_len) ws
    → length ws < fuel
    → Rest elems p (members_layout ws)
    → decode_members_loop fuel c (record { elems = elems; spare = spare }) p members
      ≡ ok ((resolve_members ip_len c ws).0, members ++ (resolve_members ip_len c ws).1)
unfolding decode_members_loop resolve_members members_layout
decode_members_loop-layout ip_len zero ws c elems spare p members e h all lt r =
    absurd (omega arith)
decode_members_loop-layout ip_len (suc fuel) [] c elems spare p members e h all lt r =
    rw (Rest-end elems p r, append-nil)
decode_members_loop-layout ip_len (suc fuel) (w ∷ ws) c elems spare p members e h all lt r =
    let first = resolve_member ip_len c w in
    let p' = p + 1 + ip_len + 2 + 4 + ip_len + 2 in
    let kept = ap (λ (v : Env). v.ip_len) (env-resolve_member ip_len c w) ∙ e in
    let others =
      decode_members_loop-layout ip_len fuel ws first.0 elems spare p' (members ++ (first.1 ∷ []))
        kept h all.1 (omega arith) (Rest-member ip_len elems p w (members_layout ws) all.0.0 r) in
    rw (
      starts elems p w (members_layout ws) r,
      decode_member-layout_at ip_len c elems spare p w (members_layout ws) e h all.0 r,
      others,
      append_assoc,
    )

members_layout-le : (ws : List WireMember) → length ws ≤ length (members_layout ws)
unfolding members_layout member_layout
members_layout-le [] = omega arith
members_layout-le (w ∷ ws) = omega (
  arith,
  members_layout-le ws,
  length-append
      (w.ip
        ++ (little 2 w.port ++ (little 4 w.heartbeat ++ (w.source_ip ++ little 2 w.source_port))))
      (members_layout ws),
)

pub decode_members-layout :
    (c : Cluster) (ws : List WireMember) (spare : List ℕ)
    → IsIpLen c.ip_len
    → All (CanDecode c.ip_len) ws
    → decode_members c (record { elems = members_layout ws; spare = spare })
      ≡ ok (resolve_members c.ip_len c ws)
unfolding decode_members
decode_members-layout c ws spare h all =
    decode_members_loop-layout c.ip_len _ ws c (members_layout ws) spare 0 [] refl h all
      (omega (arith, members_layout-le ws)) (Rest-start (members_layout ws))

length-Rest :
    (elems : List ℕ) (p : ℕ) (rest : List ℕ) → Rest elems p rest → length elems ≡ p + length rest
length-Rest elems p rest r = omega (arith, r.at, ap length r.split, length-append r.pre rest)

no_members :
    (ip_len : ℕ) (c : Cluster) (ws : List WireMember)
    → length ws ≡ 0
    → (c, []) ≡ resolve_members ip_len c ws
unfolding resolve_members
no_members ip_len c [] e = refl
no_members ip_len c (w ∷ ws) e = absurd (omega arith)

pub read_members-layout :
    (c : Cluster) (elems spare : List ℕ) (p last : ℕ) (ws : List WireMember) (rest : List ℕ)
    → IsIpLen c.ip_len
    → All (CanDecode c.ip_len) ws
    → Rest elems p (members_layout ws ++ rest)
    → last ≡ p + length (members_layout ws)
    → read_members c (record { elems = elems; spare = spare }) p last
      ≡ ok (resolve_members c.ip_len c ws)
unfolding read_members
read_members-layout c elems spare p last ws rest h all r e =
    elim (Bool-cases (ltb p (length elems))) [
      | inl some_left ↦
          rw (some_left, e, slice-Rest elems spare p (members_layout ws) rest _ refl r)
            (decode_members-layout c ws (rest ++ spare) h all)
      | inr none_left ↦ rw none_left (
          ap ok (
            no_members c.ip_len c ws (
              ground (
                arith,
                length-Rest elems p (members_layout ws ++ rest) r,
                length-append (members_layout ws) rest,
                members_layout-le ws,
              ))))
    ]

-- The broadcast of a message is read from what is left, if anything is.
unfoldable pub decode_tail :
    Cluster → List ℕ → List ℕ → Outcome (Cluster × Option Broadcast × Option Error)
decode_tail c [] spare = ok (c, none, none)
decode_tail c (x ∷ rest) spare = do
  (c', b, e) ← Broadcast.decode_broadcast c (record { elems = x ∷ rest; spare = spare })
  ok (c', some b, lift_error e)

pub read_broadcast-layout :
    (c : Cluster) (elems spare : List ℕ) (last : ℕ) (rest : List ℕ)
    → Rest elems last rest
    → read_broadcast c (record { elems = elems; spare = spare }) last ≡ decode_tail c rest spare
unfolding read_broadcast decode_tail slice_from
read_broadcast-layout c elems spare last [] r = rw (Rest-end elems last r)
read_broadcast-layout c elems spare last (x ∷ rest) r =
    let r' : Rest elems last ((x ∷ rest) ++ []) = rw append-nil r in
    let whole = slice-Rest elems spare last (x ∷ rest) [] _ refl r' in
    let size = length-Rest elems last (x ∷ rest) r in rw (Rest-lt elems last x rest r, size, whole)
